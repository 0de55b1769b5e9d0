-- ===== src/Prelude/Interface.antt =====
-- `Eq` of the source as an interface: a test on a type that decides its equality.
use Prim.Native.Nat.{ℕ}
use Prim.Native.String.{String}
use text.Mathlib.Text.{◌==◌ as str_eq}
use text.Mathlib.TextEquality.{eq_iff}
use mathlib.Core.Path.{◌≡◌, refl}
use mathlib.Core.Logic.{◌↔◌}
use mathlib.Core.Bool.{Bool, true, false, not, ◌&&◌, ◌||◌}
use mathlib.Core.Option.{Option, none, some}
use mathlib.Core.List.{List, [], ◌∷◌, ◌++◌}
use native.Mathlib.Omega.{arith}
use openrusty.Prelude.Tests.{◌==◌, ==_iff, if-both}
use openrusty.Prelude.Lists.{select}

pub record Eq {ℓ} (A : Type ℓ) : Type ℓ where
  pub beq : A → A → Bool
  pub beq_iff : (a b : A) → (beq a b ≡ true) ↔ (a ≡ b)

infix 50 ◌=?◌
abbrev pub ◌=?◌ {ℓ} : {A : Type ℓ} ⦃e : Eq A⦄ → A → A → Bool
◌=?◌ ⦃e⦄ = e.beq

instance abbrev pub nat_eq : Eq ℕ
nat_eq = record { beq = ◌==◌; beq_iff = ==_iff }

instance abbrev pub string_eq : Eq String
string_eq = record { beq = str_eq; beq_iff = eq_iff }

module _ {ℓ} {A : Type ℓ} ⦃e : Eq A⦄ where
  abbrev pub list_beq : List A → List A → Bool
  list_beq [] [] = true
  list_beq [] (y ∷ ys) = false
  list_beq (x ∷ xs) [] = false
  list_beq (x ∷ xs) (y ∷ ys) = e.beq x y && list_beq xs ys

  pub list_beq_iff : (xs ys : List A) → (list_beq xs ys ≡ true) ↔ (xs ≡ ys)
  list_beq_iff [] [] = (λ _. refl, λ _. refl)
  list_beq_iff [] (y ∷ ys) = (λ h. cc, λ h. cc)
  list_beq_iff (x ∷ xs) [] = (λ h. cc, λ h. cc)
  list_beq_iff (x ∷ xs) (y ∷ ys) = ground (arith, e.beq_iff x y, list_beq_iff xs ys)

  instance abbrev pub list_eq : Eq (List A)
  list_eq = record { beq = list_beq; beq_iff = list_beq_iff }

  -- `Vec::contains`
  abbrev pub contains : List A → A → Bool
  contains [] a = false
  contains (x ∷ xs) a = e.beq x a || contains xs a

  -- No item is among the earlier ones, or among those seen before.
  abbrev pub NoRepeat : List A → List A → Type 0
  NoRepeat seen [] = Unit
  NoRepeat seen (x ∷ xs) = (contains seen x ≡ false) × NoRepeat (x ∷ seen) xs

  -- What was seen before is not among items that repeat nothing of it.
  pub contains_of_NoRepeat :
      (seen xs : List A) (a : A) → NoRepeat seen xs → contains seen a ≡ true → contains xs a ≡ false
  contains_of_NoRepeat seen [] a h c = refl
  contains_of_NoRepeat seen (x ∷ xs) a h c =
      ground (arith, h.0, e.beq_iff x a, contains_of_NoRepeat (x ∷ seen) xs a h.1)

  pub NoRepeat-select :
      (p : A → Bool) (seen seen' xs : List A)
      → ((a : A) → contains seen a ≡ false → contains seen' a ≡ false)
      → NoRepeat seen xs
      → NoRepeat seen' (select p xs)
  NoRepeat-select p seen seen' [] sub h = tt
  NoRepeat-select p seen seen' (x ∷ xs) sub h =
      if-both (NoRepeat seen') (p x)
        (
          sub x h.0,
          NoRepeat-select p (x ∷ seen) (x ∷ seen') xs (λ a k. ground (arith, k, sub a)) h.1,
        )
        (NoRepeat-select p (x ∷ seen) seen' xs (λ a k. sub a (ground (arith, k))) h.1)

  pub NoRepeat-snoc :
      (seen xs : List A) (a : A)
      → NoRepeat seen xs
      → contains seen a ≡ false
      → contains xs a ≡ false
      → NoRepeat seen (xs ++ a ∷ [])
  NoRepeat-snoc seen [] a h c d = (c, tt)
  NoRepeat-snoc seen (x ∷ xs) a h c d =
      (h.0, NoRepeat-snoc (x ∷ seen) xs a h.1 (ground (arith, c, d)) (ground (arith, d)))

module _ {ℓ} {A : Type ℓ} ⦃e : Eq A⦄ where
  abbrev pub option_beq : Option A → Option A → Bool
  option_beq none none = true
  option_beq none (some b) = false
  option_beq (some a) none = false
  option_beq (some a) (some b) = e.beq a b

  pub option_beq_iff : (x y : Option A) → (option_beq x y ≡ true) ↔ (x ≡ y)
  option_beq_iff none none = (λ h. refl, λ h. refl)
  option_beq_iff none (some b) = (λ h. cc, λ h. cc)
  option_beq_iff (some a) none = (λ h. cc, λ h. cc)
  option_beq_iff (some a) (some b) = ground (arith, e.beq_iff a b)

abbrev pub bool_beq : Bool → Bool → Bool
bool_beq a b = a && b || not a && not b

module _ {ℓ κ} {A : Type ℓ} {B : Type κ} ⦃a : Eq A⦄ ⦃b : Eq B⦄ where
  abbrev pub pair_beq : A × B → A × B → Bool
  pair_beq x y = a.beq x.0 y.0 && b.beq x.1 y.1

  pub pair_beq_iff : (x y : A × B) → (pair_beq x y ≡ true) ↔ (x ≡ y)
  pair_beq_iff x y = ground (arith, a.beq_iff x.0 y.0, b.beq_iff x.1 y.1)

  instance abbrev pub pair_eq : Eq (A × B)
  pair_eq = record { beq = pair_beq; beq_iff = pair_beq_iff }
