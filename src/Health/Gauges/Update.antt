-- ===== src/Health/Gauges/Update.antt =====
-- What one write to a gauge of crates/openrusty-proxy/src/health.rs does to every gauge.
use openrusty.Prelude.{
  ℕ, zero, suc, ◌+◌, ◌≤◌, ◌≡◌, ◌≢◌, ◌⊎◌, refl, ap, ◌∙◌, sym, Bool, false, inl, inr, Option, none,
  some, String, if◌then◌else◌, arith, List, [], ◌∷◌, get_elem?, modify, string_eq, Option-cases,
  Bool-cases, ltb, ◌&&◌, length-modify, length,
}
use openrusty.Prelude.Assoc.{get, get-insert, beq_self}
use openrusty.Health.{
  HealthRegistry, PeerSlots, PeerHealth, SocketAddr, addr_eq, addr_beq, addr_beq_iff, addr_slot,
  update_gauge, gauge,
}

-- The gauge of the slot at an index, 0 where there is none.
abbrev gauge_of : List PeerHealth → ℕ → ℕ
gauge_of [] i = 0
gauge_of (p ∷ ps) zero = p.in_flight
gauge_of (p ∷ ps) (suc i) = gauge_of ps i

abbrev gauge_in : PeerSlots → Option ℕ → ℕ
gauge_in slots none = 0
gauge_in slots (some pos) = gauge_of slots.peers pos

get-gauge_of :
    (ps : List PeerHealth) (i : ℕ)
    → (let r : ℕ = elim (get_elem? ps i) [ none ↦ 0 | some p ↦ p.in_flight ] in r) ≡ gauge_of ps i
get-gauge_of [] i = refl
get-gauge_of (p ∷ ps) zero = refl
get-gauge_of (p ∷ ps) (suc i) = get-gauge_of ps i

abbrev gauge_at : Option PeerSlots → SocketAddr → ℕ
gauge_at none a = 0
gauge_at (some slots) a = gauge_in slots (addr_slot slots.addrs a 0)

gauge_lem :
    (h : HealthRegistry) (u : String) (a : SocketAddr)
    → gauge h u a ≡ gauge_at (get u h.upstreams) a
unfolding gauge
gauge_lem h u a = elim (Option-cases (get u h.upstreams)) [
  | inl e ↦ ground arith
  | inr (s, e) ↦ elim (Option-cases (addr_slot s.addrs a 0)) [
    | inl none_there ↦ ground arith
    | inr (pos, there) ↦ ground (arith, get-gauge_of s.peers pos)
  ]
]

gauge_of-modify_self :
    (ps : List PeerHealth) (i : ℕ) (f : ℕ → ℕ)
    → gauge_of (modify ps i (λ p. record p { in_flight = f p.in_flight })) i
      ≡ (if ltb i (length ps) then f (gauge_of ps i) else 0)
gauge_of-modify_self [] i f = ground arith
gauge_of-modify_self (p ∷ ps) zero f = ground arith
gauge_of-modify_self (p ∷ ps) (suc i) f = gauge_of-modify_self ps i f ∙ ground arith

gauge_of-modify_ne :
    (ps : List PeerHealth) (i j : ℕ) (f : PeerHealth → PeerHealth)
    → i ≢ j
    → gauge_of (modify ps i f) j ≡ gauge_of ps j
gauge_of-modify_ne [] i j f ne = refl
gauge_of-modify_ne (p ∷ ps) zero zero f ne = absurd (ne refl)
gauge_of-modify_ne (p ∷ ps) zero (suc j) f ne = refl
gauge_of-modify_ne (p ∷ ps) (suc i) zero f ne = refl
gauge_of-modify_ne (p ∷ ps) (suc i) (suc j) f ne = gauge_of-modify_ne ps i j f (λ e. ne (ap suc e))

gauge_of_past : (ps : List PeerHealth) (i : ℕ) → ltb i (length ps) ≡ false → gauge_of ps i ≡ 0
gauge_of_past [] i h = refl
gauge_of_past (p ∷ ps) zero h = ground arith
gauge_of_past (p ∷ ps) (suc i) h = gauge_of_past ps i (ground arith)

-- Two addresses do not share a slot.
addr_slot-ge :
    (as' : List SocketAddr) (a : SocketAddr) (k : ℕ) {i : ℕ} → addr_slot as' a k ≡ some i → k ≤ i
unfolding addr_slot
addr_slot-ge [] a k e = cc
addr_slot-ge (b ∷ rest) a k {i} e = ground (arith, addr_slot-ge rest a (k + 1) {i = i})

addr_slot_inj :
    (as' : List SocketAddr) (a b : SocketAddr) (k : ℕ) {i : ℕ}
    → addr_slot as' a k ≡ some i
    → addr_slot as' b k ≡ some i
    → a ≡ b
unfolding addr_slot
addr_slot_inj [] a b k e f = cc
addr_slot_inj (c ∷ rest) a b k {i} e f = ground (
  arith,
  addr_beq_iff c a,
  addr_beq_iff c b,
  addr_slot-ge rest a (k + 1) {i = i},
  addr_slot-ge rest b (k + 1) {i = i},
  addr_slot_inj rest a b (k + 1) {i = i},
)

-- The address has a slot in the upstream.
abbrev slot_present : PeerSlots → Option ℕ → Bool
slot_present slots none = false
slot_present slots (some pos) = ltb pos (length slots.peers)

abbrev present_in : Option PeerSlots → SocketAddr → Bool
present_in none a = false
present_in (some slots) a = slot_present slots (addr_slot slots.addrs a 0)

abbrev pub is_registered : HealthRegistry → String → SocketAddr → Bool
is_registered h u a = present_in (get u h.upstreams) a

abbrev bumped : PeerSlots → ℕ → (ℕ → ℕ) → PeerSlots
bumped s pos f = record s {
  peers = modify s.peers pos (λ p. record p { in_flight = f p.in_flight });
}

get-update_gauge :
    (h : HealthRegistry) (u v : String) (a : SocketAddr) (f : ℕ → ℕ) {s : PeerSlots} {pos : ℕ}
    → get u h.upstreams ≡ some s
    → addr_slot s.addrs a 0 ≡ some pos
    → get v (update_gauge h u a f).upstreams
      ≡ (if string_eq.beq u v then some (bumped s pos f) else get v h.upstreams)
unfolding update_gauge
get-update_gauge h u v a f {s} {pos} known there =
    ground (arith, get-insert u v (bumped s pos f) h.upstreams)

update_gauge_absent :
    (h : HealthRegistry) (u : String) (a : SocketAddr) (f : ℕ → ℕ)
    → (get u h.upstreams ≡ none)
      ⊎ ((s : PeerSlots) × (get u h.upstreams ≡ some s) × (addr_slot s.addrs a 0 ≡ none))
    → update_gauge h u a f ≡ h
unfolding update_gauge
update_gauge_absent h u a f (inl e) = ground arith
update_gauge_absent h u a f (inr (s, e, n)) = ground arith

pub gauge-update_self :
    (h : HealthRegistry) (u : String) (a : SocketAddr) (f : ℕ → ℕ)
    → gauge (update_gauge h u a f) u a
      ≡ (if is_registered h u a then f (gauge h u a) else gauge h u a)
gauge-update_self h u a f = elim (Option-cases (get u h.upstreams)) [
  | inl e ↦ rw (update_gauge_absent h u a f (inl e), e)
  | inr (s, e) ↦ elim (Option-cases (addr_slot s.addrs a 0)) [
    | inl n ↦ rw (update_gauge_absent h u a f (inr (s, e, n)), e, n)
    | inr (pos, there) ↦ ground (
      arith,
      gauge_lem h u a,
      gauge_lem (update_gauge h u a f) u a,
      get-update_gauge h u u a f e there,
      beq_self u,
      gauge_of-modify_self s.peers pos f,
      gauge_of_past s.peers pos,
    )
  ]
]

pub is_registered-update :
    (h : HealthRegistry) (u : String) (a : SocketAddr) (f : ℕ → ℕ)
    → is_registered (update_gauge h u a f) u a ≡ is_registered h u a
is_registered-update h u a f = elim (Option-cases (get u h.upstreams)) [
  | inl e ↦ rw (update_gauge_absent h u a f (inl e))
  | inr (s, e) ↦ elim (Option-cases (addr_slot s.addrs a 0)) [
    | inl n ↦ rw (update_gauge_absent h u a f (inr (s, e, n)))
    | inr (pos, there) ↦ ground (
      arith,
      get-update_gauge h u u a f e there,
      beq_self u,
      length-modify s.peers pos (λ p. record p { in_flight = f p.in_flight }),
    )
  ]
]

pub gauge_unregistered :
    (h : HealthRegistry) (u : String) (a : SocketAddr)
    → is_registered h u a ≡ false
    → gauge h u a ≡ 0
gauge_unregistered h u a out = elim (Option-cases (get u h.upstreams)) [
  | inl e ↦ ground (arith, gauge_lem h u a)
  | inr (s, e) ↦ elim (Option-cases (addr_slot s.addrs a 0)) [
    | inl n ↦ ground (arith, gauge_lem h u a)
    | inr (pos, there) ↦ ground (arith, gauge_lem h u a, gauge_of_past s.peers pos)
  ]
]

-- Two pairs are one pair or differ.
pub same_peer :
    (u v : String) (a b : SocketAddr)
    → ((string_eq.beq u v && addr_beq a b) ≡ false)
    → u ≡ v
    → a ≢ b
same_peer u v a b apart e f = ground (arith, string_eq.beq_iff u v, addr_beq_iff a b)

pub gauge-update_ne :
    (h : HealthRegistry) (u v : String) (a b : SocketAddr) (f : ℕ → ℕ)
    → (u ≡ v → a ≢ b)
    → gauge (update_gauge h u a f) v b ≡ gauge h v b
gauge-update_ne h u v a b f ne = elim (Option-cases (get u h.upstreams)) [
  | inl e ↦ rw (update_gauge_absent h u a f (inl e))
  | inr (s, e) ↦ elim (Option-cases (addr_slot s.addrs a 0)) [
    | inl n ↦ rw (update_gauge_absent h u a f (inr (s, e, n)))
    | inr (pos, there) ↦
        let before = gauge_lem h v b in
        let after = gauge_lem (update_gauge h u a f) v b in
        let read = get-update_gauge h u v a f e there in
        elim (Bool-cases (string_eq.beq u v)) [
          | inr other ↦ ground arith
          | inl same ↦
              let uv : u ≡ v = (string_eq.beq_iff u v).0 same in
              elim (Option-cases (addr_slot s.addrs b 0)) [
                | inl away ↦ ground arith
                | inr (other, found) ↦
                    let apart : pos ≢ other =
                      λ e. ne uv (addr_slot_inj s.addrs a b 0 there (found ∙ ap some (sym e))) in
                    ground (
                      arith,
                      gauge_of-modify_ne s.peers pos other
                          (λ p. record p { in_flight = f p.in_flight }) apart,
                    )
              ]
        ]
  ]
]
