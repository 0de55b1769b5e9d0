-- ===== src/Health/Passive.antt =====
-- The passive plane of crates/openrusty-proxy/src/health.rs: `record_failure`, `record_success` and
-- `evaluate_failure`.
use openrusty.Prelude.{
  ℕ, ◌+◌, ◌-◌, ◌*◌, ◌%◌, ◌^◌, ◌≤◌, ◌<◌, ◌≡◌, ◌≢◌, ap, ◌∙◌, ◌&&◌, some, String, leb, arith, List, [],
  ◌∷◌, All, length, u64_mod,
}
use openrusty.Health.{
  HealthRegistry, PeerHealth, HealthConfig, is_healthy, evaluate_failure, count_failure,
  record_failure, record_success, update_peer, saturating_mul,
}
use openrusty.Health.Peers.{peer_at, is_healthy_lem, peer_at-update_self, peer_at-update_ne}

abbrev pub window_ms : HealthConfig → ℕ
window_ms cfg = saturating_mul cfg.fail_window_s 1000

abbrev pub timeout_ms : HealthConfig → ℕ
timeout_ms cfg = saturating_mul cfg.fail_timeout_s 1000

-- A failure at `now` falls into the window of the slot.
abbrev pub InWindow : HealthConfig → PeerHealth → ℕ → Type 0
InWindow cfg p now = now ≤ p.window_start_ms + window_ms cfg

count_trips :
    (cfg : HealthConfig) (now : ℕ) (p : PeerHealth)
    → 0 < cfg.max_fails
    → InWindow cfg p now
    → cfg.max_fails ≤ p.fails + 1
    → p.fails + 1 < 2 ^ 32
    → count_failure cfg now p
      ≡ record p { fails = 0; down_until_ms = (now + timeout_ms cfg) % u64_mod }
unfolding count_failure evaluate_failure
count_trips cfg now p enabled live reached small = ground arith

-- A failure below `max_fails` changes no verdict.
count_below :
    (cfg : HealthConfig) (now : ℕ) (p : PeerHealth)
    → p.fails + 1 < cfg.max_fails
    → cfg.max_fails < 2 ^ 32
    → InWindow cfg p now
    → count_failure cfg now p ≡ record p { fails = p.fails + 1 }
unfolding count_failure evaluate_failure
count_below cfg now p few small live = ground arith

-- The slot after `record_failure`.
peer_at-record_failure :
    (h : HealthRegistry) (u : String) (i : ℕ) (cfg : HealthConfig) (now : ℕ) {p : PeerHealth}
    → peer_at h u i ≡ some p
    → 0 < cfg.max_fails
    → peer_at (record_failure h u i cfg now) u i ≡ some (count_failure cfg now p)
unfolding record_failure
peer_at-record_failure h u i cfg now e enabled =
    ground (arith, peer_at-update_self h u i (count_failure cfg now) e)

module _ (h : HealthRegistry) (u : String) (i : ℕ) (cfg : HealthConfig) (now : ℕ) {p : PeerHealth}
    (there : peer_at h u i ≡ some p) (enabled : 0 < cfg.max_fails) (live : InWindow cfg p now)
    (reached : cfg.max_fails ≤ p.fails + 1) (small : p.fails + 1 < 2 ^ 32) where
  tripped :
      (t : ℕ)
      → is_healthy (record_failure h u i cfg now) u i t
        ≡ (leb ((now + timeout_ms cfg) % u64_mod) t && p.active_ok)
  tripped t = rw (
    is_healthy_lem (record_failure h u i cfg now) u i t,
    peer_at-record_failure h u i cfg now there enabled,
    count_trips cfg now p enabled live reached small,
  )

  -- A failure that reaches `max_fails` inside the window takes the peer down until `now` plus the
  -- timeout, at every clock reading, if that sum fits in 64 bits.
  pub record_failure_trips :
      now + timeout_ms cfg < 2 ^ 64
      → (t : ℕ)
      → is_healthy (record_failure h u i cfg now) u i t
        ≡ (leb (now + timeout_ms cfg) t && p.active_ok)
  record_failure_trips fits t =
      let e : (now + timeout_ms cfg) % u64_mod ≡ now + timeout_ms cfg = omega arith in
      tripped t ∙ ap (λ d. leb d t && p.active_ok) e

  -- With a configured timeout whose milliseconds saturate the 64 bits, the failure that reaches
  -- `max_fails` takes the peer down at no clock reading from `now` on.
  pub record_failure_saturated :
      0 < now
      → now < 2 ^ 64
      → 2 ^ 64 ≤ cfg.fail_timeout_s * 1000
      → (t : ℕ) → now ≤ t
      → is_healthy (record_failure h u i cfg now) u i t ≡ p.active_ok
  record_failure_saturated pos_now word big t later =
      let e : (now + timeout_ms cfg) % u64_mod ≡ now - 1 = omega arith in tripped t ∙ ground arith

-- No failure of one slot changes the verdict on another.
pub record_failure_frame :
    (h : HealthRegistry) (u v : String) (i j : ℕ) (cfg : HealthConfig) (now t : ℕ)
    → (u ≡ v → i ≢ j)
    → is_healthy (record_failure h u i cfg now) v j t ≡ is_healthy h v j t
unfolding record_failure
record_failure_frame h u v i j cfg now t ne = rw (is_healthy_lem h v j t) (
    ground (
      arith,
      is_healthy_lem h v j t,
      is_healthy_lem (update_peer h u i (count_failure cfg now)) v j t,
      peer_at-update_ne h u i (count_failure cfg now) v j ne,
    ))

-- A run of failures at the given times.
abbrev pub record_failures : HealthRegistry → String → ℕ → HealthConfig → List ℕ → HealthRegistry
record_failures h u i cfg [] = h
record_failures h u i cfg (now ∷ ts) = record_failures (record_failure h u i cfg now) u i cfg ts

record_failures_below :
    (h : HealthRegistry) (u : String) (i : ℕ) (cfg : HealthConfig) (ts : List ℕ) (p : PeerHealth)
    → peer_at h u i ≡ some p
    → p.fails + length ts < cfg.max_fails
    → cfg.max_fails < 2 ^ 32
    → All (InWindow cfg p) ts
    → peer_at (record_failures h u i cfg ts) u i ≡ some (record p { fails = p.fails + length ts })
record_failures_below h u i cfg [] p e few small live = ground arith
record_failures_below h u i cfg (now ∷ ts) p e few small live = ground (
  arith,
  record_failures_below (record_failure h u i cfg now) u i cfg ts (record p { fails = p.fails + 1 })
      (peer_at-record_failure h u i cfg now e (omega arith)
        ∙ ap some (count_below cfg now p (omega arith) small live.0))
      (omega arith) small live.1,
)

module _ (h : HealthRegistry) (u : String) (i : ℕ) (cfg : HealthConfig) (since : ℕ) (ts : List ℕ)
    {p : PeerHealth} (there : peer_at h u i ≡ some p) (small : cfg.max_fails < 2 ^ 32)
    (live : All (λ t. t ≤ since + window_ms cfg) ts) where
  after_success :
      length ts < cfg.max_fails
      → peer_at (record_failures (record_success h u i since) u i cfg ts) u i
        ≡ some (record p { fails = length ts; window_start_ms = since })
  unfolding record_success
  after_success few =
      record_failures_below (record_success h u i since) u i cfg ts
        (record p { fails = 0; window_start_ms = since })
        (peer_at-update_self h u i (λ q. record q { fails = 0; window_start_ms = since }) there)
        (omega arith) small live
      ∙ ground arith

  -- After a success, fewer than `max_fails` failures inside the window that it opened leave the
  -- verdict on the peer as it was before, at every clock reading.
  pub record_failures_tolerated :
      length ts < cfg.max_fails
      → (t : ℕ)
      → is_healthy (record_failures (record_success h u i since) u i cfg ts) u i t
        ≡ is_healthy h u i t
  record_failures_tolerated few t = rw (
    is_healthy_lem (record_failures (record_success h u i since) u i cfg ts) u i t,
    after_success few,
    is_healthy_lem h u i t,
    there,
  )

  -- After a success, the `max_fails`-th failure inside the window that it opened takes the peer
  -- down until its time plus the timeout, if that sum fits in 64 bits.
  pub record_failures_trip :
      (now : ℕ)
      → length ts + 1 ≡ cfg.max_fails
      → now ≤ since + window_ms cfg
      → now + timeout_ms cfg < 2 ^ 64
      → (t : ℕ)
      → is_healthy
          (record_failure (record_failures (record_success h u i since) u i cfg ts) u i cfg now)
          u
          i
          t
        ≡ (leb (now + timeout_ms cfg) t && p.active_ok)
  record_failures_trip now full inside fits t =
      record_failure_trips (record_failures (record_success h u i since) u i cfg ts) u i cfg now
        (after_success (omega arith)) (omega arith) inside (omega arith) (omega arith) fits t
