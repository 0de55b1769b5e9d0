-- ===== src/Health/Active.antt =====
-- The active plane of crates/openrusty-proxy/src/health.rs: `record_probe` and its mirror in the
-- slots.
use openrusty.Prelude.{
  ℕ, zero, suc, ◌+◌, ◌^◌, ◌<◌, ◌≡◌, refl, ◌∙◌, Bool, true, false, ◌&&◌, some, String, ltb, leb,
  if◌then◌else◌, arith, List, [], ◌∷◌, replicate, pair_eq, string_eq,
}
use openrusty.Prelude.Assoc.{insert, get-insert, beq_self}
use openrusty.Health.{
  HealthRegistry, PeerHealth, ActivePeer, is_healthy, probed, active_entry, record_probe,
  update_peer, is_active_healthy,
}
use openrusty.Health.Peers.{active-update_peer, peer_at, is_healthy_lem, peer_at-update_self}

-- A run of probe outcomes on one entry.
unfoldable pub probes : ActivePeer → List Bool → ℕ → ℕ → ActivePeer
probes p [] down up = p
probes p (ok ∷ oks) down up = probes (probed p ok down up) oks down up

-- Failures in a row: the verdict falls exactly when their count reaches the threshold.
probes-fails :
    (n : ℕ) (p : ActivePeer) (down up : ℕ)
    → p.fails + n < 2 ^ 32
    → 0 < n
    → probes p (replicate n false) down up ≡ record {
      healthy = if p.healthy then ltb (p.fails + n) down else false;
      fails = p.fails + n;
      successes = 0;
    }
unfolding probes probed
probes-fails zero p down up small some_n = absurd (omega arith)
probes-fails (suc zero) p down up small some_n = ground arith
probes-fails (suc (suc n)) p down up small some_n =
    ground (arith, probes-fails (suc n) (probed p false down up) down up)

-- Successes in a row: the verdict rises exactly when their count reaches the threshold.
probes-oks :
    (n : ℕ) (p : ActivePeer) (down up : ℕ)
    → p.successes + n < 2 ^ 32
    → 0 < n
    → probes p (replicate n true) down up ≡ record {
      healthy = if p.healthy then true else leb up (p.successes + n);
      fails = 0;
      successes = p.successes + n;
    }
unfolding probes probed
probes-oks zero p down up small some_n = absurd (omega arith)
probes-oks (suc zero) p down up small some_n = ground arith
probes-oks (suc (suc n)) p down up small some_n =
    ground (arith, probes-oks (suc n) (probed p true down up) down up)

-- A healthy peer with a successful probe behind it is down after `n` failed probes in a row
-- exactly when `n` reaches the unhealthy threshold.
pub probes_fall :
    (n : ℕ) (p : ActivePeer) (down up : ℕ)
    → p.healthy ≡ true
    → 0 < down
    → n < 2 ^ 32
    → (probes p (true ∷ replicate n false) down up).healthy ≡ ltb n down
unfolding probes probed
probes_fall zero p down up well some_down small = ground arith
probes_fall (suc n) p down up well some_down small =
    ground (arith, probes-fails (suc n) (probed p true down up) down up)

-- A down peer with a failed probe behind it is healthy after `n` successful probes in a row
-- exactly when `n` reaches the healthy threshold.
pub probes_rise :
    (n : ℕ) (p : ActivePeer) (down up : ℕ)
    → p.healthy ≡ false
    → 0 < up
    → n < 2 ^ 32
    → (probes p (false ∷ replicate n true) down up).healthy ≡ leb up n
unfolding probes probed
probes_rise zero p down up ill some_up small = ground arith
probes_rise (suc n) p down up ill some_up small =
    ground (arith, probes-oks (suc n) (probed p false down up) down up)

-- The registry once a probe has stored the entry `q`.
abbrev store : HealthRegistry → String → String → ActivePeer → HealthRegistry
store h u addr q = record h { active = insert (u, addr) q h.active }

is_active_healthy-store :
    (h : HealthRegistry) (u : String) (i : ℕ) (addr : String) (q : ActivePeer)
    (f : PeerHealth → PeerHealth)
    → is_active_healthy (update_peer (store h u addr q) u i f) u addr ≡ q.healthy
unfolding is_active_healthy
is_active_healthy-store h u i addr q f = ground (
  arith,
  active-update_peer (store h u addr q) u i f,
  get-insert (u, addr) (u, addr) q h.active,
  beq_self {K = String × String} (u, addr),
)

peer_at-store :
    (h : HealthRegistry) (u : String) (i : ℕ) (addr : String) (q : ActivePeer)
    → peer_at (store h u addr q) u i ≡ peer_at h u i
unfolding peer_at
peer_at-store h u i addr q = refl

is_healthy-store :
    (h : HealthRegistry) (u : String) (i : ℕ) (addr : String) (q : ActivePeer) {p : PeerHealth}
    (t : ℕ)
    → peer_at h u i ≡ some p
    → is_healthy
        (update_peer (store h u addr q) u i (λ slot. record slot { active_ok = q.healthy }))
        u
        i
        t
      ≡ (leb p.down_until_ms t && q.healthy)
is_healthy-store h u i addr q {p} t there = rw (
  is_healthy_lem
      (update_peer (store h u addr q) u i (λ slot. record slot { active_ok = q.healthy })) u i t,
  peer_at-update_self (store h u addr q) u i (λ slot. record slot { active_ok = q.healthy })
      (peer_at-store h u i addr q ∙ there),
)

module _ (h : HealthRegistry) (u : String) (i : ℕ) (addr : String) (ok : Bool) (down up : ℕ) where
  -- The verdict that a probe returns is that of the counters of the pair, it is the one that the
  -- active plane then reports, and for a registered slot it is combined with the passive plane.
  pub record_probe_verdict :
      {p : PeerHealth}
      → peer_at h u i ≡ some p
      → ((record_probe h u i addr ok down up).1
          ≡ (probed (active_entry h u addr) ok down up).healthy)
        × (is_active_healthy (record_probe h u i addr ok down up).0 u addr
            ≡ (record_probe h u i addr ok down up).1)
        × ((t : ℕ)
            → is_healthy (record_probe h u i addr ok down up).0 u i t
              ≡ (leb p.down_until_ms t && (record_probe h u i addr ok down up).1))
  unfolding record_probe
  record_probe_verdict {p} there =
      let q = probed (active_entry h u addr) ok down up in
      (
        refl,
        is_active_healthy-store h u i addr q (λ slot. record slot { active_ok = q.healthy }),
        λ t. is_healthy-store h u i addr q t there,
      )
