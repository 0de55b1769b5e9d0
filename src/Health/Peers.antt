-- ===== src/Health/Peers.antt =====
-- The slots of crates/openrusty-proxy/src/health.rs as a partial function of the upstream and the
-- index, and what a write through a slot does to it.
use openrusty.Prelude.{
  ℕ, ◌≡◌, ◌≢◌, refl, Bool, true, false, inl, inr, Option, none, some, String, ltb, length,
  get_elem?, modify, arith, string_eq, Option-cases, get_elem?-modify_self, get_elem?-modify_ne,
  lt_length_of_get, get_elem?-some, List, [], ◌∷◌, select, range, lt→ltb, ltb→lt, zero, suc, ap,
}
use mathlib.Core.Path.{fun_ext}
use openrusty.Prelude.Assoc.{get, get-insert}
use openrusty.Health.{
  HealthRegistry, PeerSlots, PeerHealth, lookup, is_healthy, healthy_indices, is_up, slot_up,
  update_peer,
}

-- The slot of a peer, if it is registered.
abbrev pub slot_of : Option PeerSlots → ℕ → Option PeerHealth
slot_of none idx = none
slot_of (some slots) idx = get_elem? slots.peers idx

unfoldable pub peer_at : HealthRegistry → String → ℕ → Option PeerHealth
peer_at h upstream idx = slot_of (get upstream h.upstreams) idx

-- The verdict on a slot, missing slots being healthy.
abbrev pub verdict : Option PeerHealth → ℕ → Bool
verdict none now_ms = true
verdict (some p) now_ms = is_up p now_ms

get_elem?-none {ℓ} :
    {A : Type ℓ} (xs : List A) (i : ℕ) → ltb i (length xs) ≡ false → get_elem? xs i ≡ none
get_elem?-none [] i h = refl
get_elem?-none (x ∷ xs) zero h = ground arith
get_elem?-none (x ∷ xs) (suc i) h = get_elem?-none xs i (ground arith)

-- `lookup` finds the slots of an upstream exactly when they have a slot at the index.
slot-lookup : (h : HealthRegistry) (u : String) (i : ℕ) → slot_of (lookup h u i) i ≡ peer_at h u i
unfolding lookup peer_at
slot-lookup h u i = elim (Option-cases (get u h.upstreams)) [
  | inl e ↦ rw (e, lookup, peer_at)
  | inr (s, e) ↦ ground (arith, get_elem?-none s.peers i)
]

pub is_healthy_lem :
    (h : HealthRegistry) (u : String) (i now : ℕ)
    → is_healthy h u i now ≡ verdict (peer_at h u i) now
unfolding is_healthy lookup peer_at
is_healthy_lem h u i now = elim (Option-cases (get u h.upstreams)) [
  | inl e ↦ ground arith
  | inr (s, e) ↦ ground (arith, get_elem?-none s.peers i)
]

module _ (h : HealthRegistry) (u : String) (i : ℕ) (f : PeerHealth → PeerHealth) where
  pub peer_at-update_self :
      {p : PeerHealth} → peer_at h u i ≡ some p → peer_at (update_peer h u i f) u i ≡ some (f p)
  unfolding peer_at update_peer lookup
  peer_at-update_self {p} e = elim (Option-cases (get u h.upstreams)) [
    | inl g ↦ ground arith
    | inr (s, g) ↦
        let there : get_elem? s.peers i ≡ some p = ground arith in
        ground (
          arith,
          get-insert u u (record s { peers = modify s.peers i f }) h.upstreams,
          string_eq.beq_iff u u,
          lt→ltb i (length s.peers) (lt_length_of_get s.peers i there),
          get_elem?-modify_self s.peers i f there,
        )
  ]

  pub peer_at-update_ne :
      (v : String) (j : ℕ) → (u ≡ v → i ≢ j) → peer_at (update_peer h u i f) v j ≡ peer_at h v j
  unfolding peer_at update_peer lookup
  peer_at-update_ne v j ne = elim (Option-cases (get u h.upstreams)) [
    | inl g ↦ ground arith
    | inr (s, g) ↦ ground (
      arith,
      get-insert u v (record s { peers = modify s.peers i f }) h.upstreams,
      string_eq.beq_iff u v,
      get_elem?-modify_ne s.peers i j f,
    )
  ]

  pub update_peer_absent : peer_at h u i ≡ none → update_peer h u i f ≡ h
  unfolding peer_at update_peer lookup
  update_peer_absent e = elim (Option-cases (get u h.upstreams)) [
    | inl g ↦ ground arith
    | inr (s, g) ↦ ground (arith, get_elem?-some s.peers i, ltb→lt i (length s.peers))
  ]

select_all {ℓ} : {A : Type ℓ} (xs : List A) → xs ≡ select (λ _. true) xs
select_all [] = refl
select_all (x ∷ xs) = ap (◌∷◌ x) (select_all xs)

slot-verdict :
    (s : PeerSlots) (i now : ℕ) → slot_up s.peers i now ≡ verdict (get_elem? s.peers i) now
slot-verdict s i now = ground arith

by_slots :
    (h : HealthRegistry) (u : String) (n now : ℕ)
    → healthy_indices h u n now ≡ select (λ i. verdict (peer_at h u i) now) (range n)
unfolding healthy_indices peer_at
by_slots h u n now = elim (Option-cases (get u h.upstreams)) [
  | inl e ↦ rw (e, healthy_indices, slot_of) (select_all (range n))
  | inr (s, e) ↦ rw (e, healthy_indices, slot_of) (rw (fun_ext (λ i. slot-verdict s i now)))
]

-- The indices that `healthy_indices` lists are those of which `is_healthy` holds, in ascending
-- order, for a registered upstream and for an unknown one.
pub healthy_indices_lem :
    (h : HealthRegistry) (u : String) (n now : ℕ)
    → healthy_indices h u n now ≡ select (λ i. is_healthy h u i now) (range n)
healthy_indices_lem h u n now = simp (is_healthy_lem) (by_slots h u n now)

-- A write through a slot leaves the active plane alone.
pub active-update_peer :
    (h : HealthRegistry) (u : String) (i : ℕ) (f : PeerHealth → PeerHealth)
    → (update_peer h u i f).active ≡ h.active
unfolding update_peer
active-update_peer h u i f = ground arith
