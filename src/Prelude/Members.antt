-- ===== src/Prelude/Members.antt =====
-- Membership of numbers in a list, as the Boolean test of the models.
use Prim.Native.Nat.{ℕ, zero, suc}
use mathlib.Core.Path.{◌≡◌}
use mathlib.Core.Bool.{Bool, true}
use mathlib.Core.List.{List, [], ◌∷◌}
use mathlib.Core.Option.{some}
use native.Mathlib.Omega.{arith}
use openrusty.Prelude.Tests.{==_iff}
use openrusty.Prelude.Lists.{get_elem?, select}
use openrusty.Prelude.Interface.{contains, nat_eq}

pub contains_of_get : (xs : List ℕ) (i : ℕ) {a : ℕ} → get_elem? xs i ≡ some a → contains xs a ≡ true
contains_of_get [] i e = cc
contains_of_get (x ∷ xs) zero {a} e = ground (arith, ==_iff x a)
contains_of_get (x ∷ xs) (suc i) e = ground (arith, contains_of_get xs i e)

pub contains-select :
    (p : ℕ → Bool) (xs : List ℕ) (a : ℕ)
    → contains (select p xs) a ≡ true
    → (p a ≡ true) × (contains xs a ≡ true)
contains-select p [] a h = cc
contains-select p (x ∷ xs) a h = ground (arith, ==_iff x a, contains-select p xs a)
