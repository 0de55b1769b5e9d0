-- ===== src/Prelude/Result.antt =====
-- `Result`, with its chain.
use Prim.Native.Nat.{ℕ, ◌+◌}
use mathlib.Core.Path.{◌≡◌, refl, subst}
use mathlib.Core.Logic.{◌↔◌}
use mathlib.Core.Bool.{Bool, true, false}
use mathlib.Core.List.{List, [], ◌∷◌, ◌++◌}
use openrusty.Prelude.Lists.{All}

pub data Result {ℓ κ} (E : Type ℓ) (A : Type κ) : Type (ℓ ⊔ κ) where
  ok : A → Result E A
  err : E → Result E A

-- A check that fails with a reason.
abbrev pub refuse {ℓ} : {E : Type ℓ} → Bool → E → Result E (Unit {0})
refuse true e = err e
refuse false e = ok tt

infixl 5 ◌>>=◌ ◌>>◌
abbrev pub ◌>>=◌ {ℓ κ λ'} :
    {E : Type ℓ} {A : Type κ} {B : Type λ'} → Result E A → (A → Result E B) → Result E B
ok a >>= f = f a
err e >>= f = err e

abbrev pub ◌>>◌ {ℓ κ λ'} :
    {E : Type ℓ} {A : Type κ} {B : Type λ'} → Result E A → Result E B → Result E B
m >> k = m >>= λ _. k

-- What a loop with `?` pushes, round by round, or its first failure.
abbrev pub gather {ℓ κ λ'} :
    {E : Type ℓ} {A : Type κ} {B : Type λ'} → (A → Result E (List B)) → List A → Result E (List B)
gather f [] = ok []
gather f (a ∷ more) = f a >>= λ bs. gather f more >>= λ rest. ok (bs ++ rest)

-- A loop with `?` that checks each item, with its index.
abbrev pub each_from {ℓ κ} :
    {E : Type ℓ} {A : Type κ} → (ℕ → A → Result E (Unit {0})) → ℕ → List A → Result E (Unit {0})
each_from f i [] = ok tt
each_from f i (a ∷ more) = f i a >> each_from f (i + 1) more

-- A loop with `?` over a state.
abbrev pub fold_ok {ℓ κ λ'} :
    {E : Type ℓ} {A : Type κ} {S : Type λ'} → (A → S → Result E S) → List A → S → Result E S
fold_ok f [] s = ok s
fold_ok f (a ∷ more) s = f a s >>= fold_ok f more

pub >>=-eq-ok {ℓ κ λ'} :
    {E : Type ℓ} {A : Type κ} {B : Type λ'} (m : Result E A) (f : A → Result E B) {b : B}
    → (m >>= f) ≡ ok b
    → (a : A) × (m ≡ ok a) × (f a ≡ ok b)
>>=-eq-ok (ok a) f e = (a, refl, e)
>>=-eq-ok (err x) f e = absurd cc

pub ok_inj {ℓ κ} :
    {E : Type ℓ} {A : Type κ} (m : Result E A) {a b : A} → m ≡ ok a → m ≡ ok b → a ≡ b
ok_inj m e f = cc

-- What every round of a loop establishes and later rounds keep, holds of all items in the end.
module _ {ℓ κ λ' μ ν} {E : Type ℓ} {A : Type κ} {S : Type λ'} (Kept : S → S → Type μ)
    (P : A → S → Type ν) (keep_refl : (s : S) → Kept s s)
    (keep_trans : (s t u : S) → Kept s t → Kept t u → Kept s u)
    (keep : (a : A) (s t : S) → Kept s t → P a s → P a t) where
  pub fold_ok-All :
      (f : A → S → Result E S) (round : (a : A) (s t : S) → f a s ≡ ok t → Kept s t × P a t)
      (items : List A) (s t : S)
      → fold_ok f items s ≡ ok t
      → Kept s t × All (λ a. P a t) items
  fold_ok-All f round [] s t e = (subst (Kept s) (ok_inj (ok s) refl e) (keep_refl s), tt)
  fold_ok-All f round (a ∷ items) s t e =
      let (u, first, then) = >>=-eq-ok (f a s) (fold_ok f items) e in
      let (kept, all) = fold_ok-All f round items u t then in
      let (kept', here) = round a s u first in
      (keep_trans s u t kept' kept, (keep a u t kept here, all))

pub refuse_iff {ℓ} : {E : Type ℓ} (b : Bool) (e : E) → (refuse b e ≡ ok tt) ↔ (b ≡ false)
refuse_iff true e = (λ h. cc, λ h. cc)
refuse_iff false e = (λ h. refl, λ h. refl)

-- Checks in turn pass when each of them does.
pub >>-iff {ℓ κ μ} :
    {E : Type ℓ} {P : Type κ} {Q : Type μ} (m k : Result E (Unit {0}))
    → (m ≡ ok tt) ↔ P
    → (k ≡ ok tt) ↔ Q
    → ((m >> k) ≡ ok tt) ↔ (P × Q)
>>-iff (ok tt) k p q = (λ e. (p.0 refl, q.0 e), λ h. q.1 h.1)
>>-iff (err x) k p q = (λ e. absurd (differ _ refl e), λ h. absurd (differ _ refl (p.1 h.0)))
  where
    differ : (r : Result _ (Unit {0})) → r ≡ err x → r ≡ ok tt → ⊥
    differ r e f = cc

pub each_from_iff {ℓ κ μ} :
    {E : Type ℓ} {A : Type κ} (f : ℕ → A → Result E (Unit {0})) (P : A → Type μ)
    → ((i : ℕ) (a : A) → (f i a ≡ ok tt) ↔ P a)
    → (i : ℕ) (items : List A) → (each_from f i items ≡ ok tt) ↔ All P items
each_from_iff f P h i [] = (λ e. tt, λ a. refl)
each_from_iff f P h i (a ∷ items) =
    >>-iff (f i a) (each_from f (i + 1) items) (h i a) (each_from_iff f P h (i + 1) items)
