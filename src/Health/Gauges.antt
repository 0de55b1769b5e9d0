-- ===== src/Health/Gauges.antt =====
-- The in-flight gauges of crates/openrusty-proxy/src/health.rs.
pub mod Update
use openrusty.Prelude.{
  ℕ, zero, suc, ◌+◌, ◌-◌, ◌%◌, ◌^◌, ◌≤◌, ◌<◌, ◌≡◌, ◌≢◌, ◌⊎◌, refl, ap, ◌∙◌, sym, Bool, true, false,
  inl, inr, Option, none, some, String, if◌then◌else◌, arith, List, [], ◌∷◌, All, get_elem?, modify,
  map, Eq, string_eq, Option-cases, Bool-cases, ltb, ◌&&◌, length-modify, length, u64_mod,
}
use openrusty.Prelude.Assoc.{get, insert, get-insert, beq_self}
use openrusty.Health.{
  HealthRegistry, PeerSlots, PeerHealth, SocketAddr, addr_eq, addr_beq, addr_beq_iff, addr_slot,
  update_gauge, inc_in_flight, dec_in_flight, gauge,
}
use openrusty.Health.Gauges.Update.{
  is_registered, gauge-update_self, is_registered-update, gauge_unregistered, same_peer,
  gauge-update_ne,
}

restored :
    (h : HealthRegistry) (u : String) (a : SocketAddr)
    → gauge h u a + 1 < 2 ^ 64
    → gauge (dec_in_flight (inc_in_flight h u a) u a) u a ≡ gauge h u a
unfolding inc_in_flight dec_in_flight
restored h u a small =
    let up = update_gauge h u a (λ n. (n + 1) % u64_mod) in
    ground (
      arith,
      gauge-update_self h u a (λ n. (n + 1) % u64_mod),
      gauge-update_self up u a (λ n. n - 1),
      is_registered-update h u a (λ n. (n + 1) % u64_mod),
      gauge_unregistered h u a,
    )

untouched :
    (h : HealthRegistry) (u v : String) (a b : SocketAddr)
    → (u ≡ v → a ≢ b)
    → gauge (dec_in_flight (inc_in_flight h u a) u a) v b ≡ gauge h v b
unfolding inc_in_flight dec_in_flight
untouched h u v a b ne =
    gauge-update_ne (update_gauge h u a (λ n. (n + 1) % u64_mod)) u v a b (λ n. n - 1) ne
    ∙ gauge-update_ne h u v a b (λ n. (n + 1) % u64_mod) ne

-- Picking a peer and releasing it again leaves every gauge as it was, whatever peers are
-- registered, if the gauge of the peer does not overflow 64 bits.
pub dec-inc_in_flight :
    (h : HealthRegistry) (u v : String) (a b : SocketAddr)
    → gauge h u a + 1 < 2 ^ 64
    → gauge (dec_in_flight (inc_in_flight h u a) u a) v b ≡ gauge h v b
dec-inc_in_flight h u v a b small = elim (Bool-cases (string_eq.beq u v && addr_beq a b)) [
  | inr apart ↦ untouched h u v a b (same_peer u v a b apart)
  | inl same ↦
      let uv : v ≡ u = ground (arith, string_eq.beq_iff u v) in
      let ab : b ≡ a = ground (arith, addr_beq_iff a b) in rw (uv, ab) (restored h u a small)
]

raised :
    (h : HealthRegistry) (u : String) (a : SocketAddr)
    → gauge h u a + 1 < 2 ^ 64
    → gauge (inc_in_flight h u a) u a
      ≡ (if is_registered h u a then gauge h u a + 1 else gauge h u a)
unfolding inc_in_flight
raised h u a small = ground (arith, gauge-update_self h u a (λ n. (n + 1) % u64_mod))

-- Picking a registered peer raises its gauge by one and no other gauge, if it does not overflow 64
-- bits; a peer that is not registered raises none.
pub gauge-inc_in_flight :
    (h : HealthRegistry) (u v : String) (a b : SocketAddr)
    → gauge h u a + 1 < 2 ^ 64
    → gauge (inc_in_flight h u a) v b ≡ (
        if string_eq.beq u v && addr_beq a b && is_registered h u a
        then gauge h v b + 1
        else gauge h v b)
unfolding inc_in_flight
gauge-inc_in_flight h u v a b small = elim (Bool-cases (string_eq.beq u v && addr_beq a b)) [
  | inr apart ↦
      ground (arith, gauge-update_ne h u v a b (λ n. (n + 1) % u64_mod) (same_peer u v a b apart))
  | inl same ↦
      let uv : v ≡ u = ground (arith, string_eq.beq_iff u v) in
      let ab : b ≡ a = ground (arith, addr_beq_iff a b) in
      rw (uv, ab) (ground (arith, raised h u a small, beq_self u, beq_self a))
]
