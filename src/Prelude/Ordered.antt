-- ===== src/Prelude/Ordered.antt =====
-- `BTreeMap` and `BTreeSet` as lists in the order of their keys, for a test `lt` of that order.
use mathlib.Core.Path.{◌≡◌, refl, ap}
use mathlib.Core.Logic.{inl, inr}
use mathlib.Core.Bool.{Bool, true, false, ◌&&◌, ◌||◌}
use mathlib.Core.Option.{some}
use mathlib.Core.List.{List, [], ◌∷◌}
use native.Mathlib.Omega.{arith}
use openrusty.Prelude.Tests.{Bool-cases, ltb, ◌==◌, if◌then◌else◌}
use openrusty.Prelude.Interface.{Eq}
use openrusty.Prelude.Assoc.{get}
use openrusty.Prelude.Text.{Text, some_of}

-- The order of texts.
abbrev pub text_lt : Text → Text → Bool
text_lt s [] = false
text_lt [] (d ∷ t) = true
text_lt (c ∷ s) (d ∷ t) = ltb c d || c == d && text_lt s t

module _ {ℓ κ} {K : Type ℓ} {V : Type κ} ⦃e : Eq K⦄ where
  -- `BTreeMap::insert`
  abbrev pub put : (K → K → Bool) → K → V → List (K × V) → List (K × V)
  put lt k v [] = (k, v) ∷ []
  put lt k v ((j, w) ∷ m) =
      if e.beq j k
      then (k, v) ∷ m
      else if lt k j
      then (k, v) ∷ (j, w) ∷ m
      else (j, w) ∷ put lt k v m

  pub get-put :
      (lt : K → K → Bool) (k j : K) (v : V) (m : List (K × V))
      → get j (put lt k v m) ≡ (if e.beq k j then some v else get j m)
  unfolding get
  get-put lt k j v [] = refl
  get-put lt k j v ((i, w) ∷ m) =
      ground (arith, e.beq_iff k j, e.beq_iff i k, e.beq_iff i j, get-put lt k j v m)

module _ {ℓ} {A : Type ℓ} ⦃e : Eq A⦄ where
  -- `BTreeSet::insert`
  abbrev pub add : (A → A → Bool) → A → List A → List A
  add lt a [] = a ∷ []
  add lt a (x ∷ xs) = if e.beq x a then x ∷ xs else if lt a x then a ∷ x ∷ xs else x ∷ add lt a xs

  abbrev pub add_all : (A → A → Bool) → List A → List A → List A
  add_all lt [] xs = xs
  add_all lt (a ∷ more) xs = add_all lt more (add lt a xs)

  -- What a test finds in a set, it finds among the items that were put in.
  pub some_of-add :
      (p : A → Bool) (lt : A → A → Bool) (a : A) (xs : List A)
      → some_of p (add lt a xs) ≡ (p a || some_of p xs)
  some_of-add p lt a [] = refl
  some_of-add p lt a (x ∷ xs) = elim (Bool-cases (e.beq x a)) [
    | inl same ↦ ground (arith, same, ap p ((e.beq_iff x a).0 same))
    | inr other ↦ ground (arith, other, some_of-add p lt a xs)
  ]

  pub some_of-add_all :
      (p : A → Bool) (lt : A → A → Bool) (items xs : List A)
      → some_of p (add_all lt items xs) ≡ (some_of p items || some_of p xs)
  some_of-add_all p lt [] xs = ground arith
  some_of-add_all p lt (a ∷ more) xs =
      ground (arith, some_of-add_all p lt more (add lt a xs), some_of-add p lt a xs)
