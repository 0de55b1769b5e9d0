-- ===== src/Prelude/Maps.antt =====
-- Association lists as maps with one entry for a key: what a change does to their keys, their sizes
-- and what holds of their entries.
use Prim.Native.Nat.{◌+◌, ◌≤◌}
use mathlib.Core.Path.{◌≡◌, refl, ap, subst}
use mathlib.Core.Logic.{inl, inr}
use mathlib.Core.Bool.{Bool, true, false}
use mathlib.Core.Option.{none, some}
use mathlib.Core.List.{List, [], ◌∷◌, ◌++◌}
use native.Mathlib.Omega.{arith}
use openrusty.Prelude.Tests.{Bool-cases, if◌then◌else◌}
use openrusty.Prelude.Lists.{length, select, All}
use openrusty.Prelude.Interface.{Eq}
use openrusty.Prelude.Assoc.{get, insert, remove, get-insert, get-remove}

module _ {ℓ κ} {K : Type ℓ} {V : Type κ} ⦃e : Eq K⦄ where
  -- No key stands twice.
  abbrev pub Unique : List (K × V) → Type κ
  Unique [] = Unit
  Unique ((k, v) ∷ m) = (get k m ≡ none) × Unique m

  pub insert-Unique : (k : K) (v : V) (m : List (K × V)) → Unique m → Unique (insert k v m)
  unfolding get insert
  insert-Unique k v [] u = (refl, tt)
  insert-Unique k v ((j, w) ∷ m) u = elim (Bool-cases (e.beq j k)) [
    | inl same ↦
        rw same (ground (arith, e.beq_iff j k, ap (λ x. get x m) ((e.beq_iff j k).0 same)), u.1)
    | inr other ↦
        rw other (
          ground (arith, get-insert k j v m, e.beq_iff k j, e.beq_iff j k),
          insert-Unique k v m u.1,
        )
  ]

  pub remove-Unique : (k : K) (m : List (K × V)) → Unique m → Unique (remove k m)
  unfolding get remove
  remove-Unique k [] u = tt
  remove-Unique k ((j, w) ∷ m) u = elim (Bool-cases (e.beq j k)) [
    | inl same ↦ rw same (remove-Unique k m u.1)
    | inr other ↦ rw other (ground (arith, get-remove k j m), remove-Unique k m u.1)
  ]

  pub get-select-none :
      (p : K × V → Bool) (k : K) (m : List (K × V)) → get k m ≡ none → get k (select p m) ≡ none
  unfolding get
  get-select-none p k [] h = refl
  get-select-none p k ((j, w) ∷ m) h = ground (arith, get-select-none p k m)

  pub select-Unique : (p : K × V → Bool) (m : List (K × V)) → Unique m → Unique (select p m)
  select-Unique p [] u = tt
  select-Unique p ((j, w) ∷ m) u = elim (Bool-cases (p (j, w))) [
    | inl kept ↦ rw kept (get-select-none p j m u.0, select-Unique p m u.1)
    | inr gone ↦ rw gone (select-Unique p m u.1)
  ]

  pub remove_absent : (k : K) (m : List (K × V)) → get k m ≡ none → remove k m ≡ m
  unfolding get remove
  remove_absent k [] h = refl
  remove_absent k ((j, w) ∷ m) h = ground (arith, remove_absent k m)

  pub length-insert : (k : K) (v : V) (m : List (K × V)) → length (insert k v m) ≤ length m + 1
  unfolding insert
  length-insert k v [] = omega arith
  length-insert k v ((j, w) ∷ m) = ground (arith, length-insert k v m)

  pub length-insert_there :
      (k : K) (v : V) (m : List (K × V)) {w : V}
      → get k m ≡ some w
      → length (insert k v m) ≡ length m
  unfolding get insert
  length-insert_there k v [] h = cc
  length-insert_there k v ((j, w') ∷ m) {w} h = ground (arith, length-insert_there k v m {w = w})

  pub length-remove : (k : K) (m : List (K × V)) → length (remove k m) ≤ length m
  unfolding remove
  length-remove k [] = omega arith
  length-remove k ((j, w) ∷ m) = ground (arith, length-remove k m)

module _ {ℓ κ} {K : Type ℓ} {V : Type κ} ⦃e : Eq K⦄ where
  pub length-remove_there :
      (k : K) (m : List (K × V)) {v : V}
      → Unique m
      → get k m ≡ some v
      → length (remove k m) + 1 ≡ length m
  unfolding get remove
  length-remove_there k [] u h = cc
  length-remove_there k ((j, w) ∷ m) {v} u h = elim (Bool-cases (e.beq j k)) [
    | inl same ↦
        let gone = ap (λ x. get x m) ((e.beq_iff j k).0 same) in
        ground (arith, remove_absent k m, gone)
    | inr other ↦ ground (arith, length-remove_there k m {v = v} u.1)
  ]

  pub All-remove {μ} :
      (P : K × V → Type μ) (k : K) (m : List (K × V))
      → All P m
      → All (λ x. P x × (e.beq x.0 k ≡ false)) (remove k m)
  unfolding remove
  All-remove P k [] h = tt
  All-remove P k ((j, w) ∷ m) h = elim (Bool-cases (e.beq j k)) [
    | inl same ↦ rw same (All-remove P k m h.1)
    | inr other ↦ rw other ((h.0, other), All-remove P k m h.1)
  ]

  pub All-get {μ} :
      (P : K × V → Type μ) (k : K) (m : List (K × V)) {v : V}
      → All P m
      → get k m ≡ some v
      → P (k, v)
  unfolding get
  All-get P k [] h f = cc
  All-get P k ((j, w) ∷ m) {v} h f = elim (Bool-cases (e.beq j k)) [
    | inl same ↦
        let here : ◌≡◌ {A = K × V} (j, w) (k, v) = ground (arith, e.beq_iff j k) in subst P here h.0
    | inr other ↦ All-get P k m {v = v} h.1 (ground arith)
  ]

  -- An entry for a new key at the end.
  pub get-append :
      (k j : K) (v : V) (m : List (K × V))
      → get k m ≡ none
      → get j (m ++ (k, v) ∷ []) ≡ (if e.beq k j then some v else get j m)
  unfolding get
  get-append k j v [] h = refl
  get-append k j v ((i, w) ∷ m) h =
      ground (arith, e.beq_iff k j, e.beq_iff i k, e.beq_iff i j, get-append k j v m)

  pub append-Unique :
      (k : K) (v : V) (m : List (K × V)) → get k m ≡ none → Unique m → Unique (m ++ (k, v) ∷ [])
  unfolding get
  append-Unique k v [] h u = (refl, tt)
  append-Unique k v ((i, w) ∷ m) h u = (
    ground (arith, e.beq_iff k i, e.beq_iff i k, get-append k i v m),
    append-Unique k v m (ground arith) u.1,
  )

  -- A selection by the value, of a map with one entry for a key.
  pub get-select :
      (p : K × V → Bool) (k : K) (m : List (K × V))
      → Unique m
      → get k (select p m)
        ≡ (elim (get k m) [ none ↦ none | some v ↦ if p (k, v) then some v else none ])
  unfolding get
  get-select p k [] u = refl
  get-select p k ((j, w) ∷ m) u = elim (Bool-cases (e.beq j k)) [
    | inl same ↦
        let at_k = (e.beq_iff j k).0 same in
        ground (arith, ap (λ x. p (x, w)) at_k, ap (λ x. get x m) at_k, get-select p k m u.1)
    | inr other ↦ ground (arith, get-select p k m u.1)
  ]

module _ {ℓ κ} {A : Type ℓ} (P : A → Type κ) where
  pub All-append : (xs ys : List A) → All P xs → All P ys → All P (xs ++ ys)
  All-append [] ys h k = k
  All-append (x ∷ xs) ys h k = (h.0, All-append xs ys h.1 k)

  pub All-select :
      (p : A → Bool) (xs : List A) → All P xs → All (λ a. P a × (p a ≡ true)) (select p xs)
  All-select p [] h = tt
  All-select p (x ∷ xs) h = elim (Bool-cases (p x)) [
    | inl kept ↦ rw kept ((h.0, kept), All-select p xs h.1)
    | inr gone ↦ rw gone (All-select p xs h.1)
  ]

pub length-append {ℓ} : {A : Type ℓ} (xs ys : List A) → length (xs ++ ys) ≡ length xs + length ys
length-append [] ys = omega arith
length-append (x ∷ xs) ys = omega (arith, length-append xs ys)

pub length-select {ℓ} : {A : Type ℓ} (p : A → Bool) (xs : List A) → length (select p xs) ≤ length xs
length-select p [] = omega arith
length-select p (x ∷ xs) = ground (arith, length-select p xs)
