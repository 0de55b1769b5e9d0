-- ===== src/Routing/Indexed.antt =====
-- Routes with their indices: `iter().enumerate()` of crates/openrusty-server/src/pipeline/mod.rs and the
-- choice of a class.
use openrusty.Prelude.{
  ℕ, zero, suc, ◌+◌, ◌≤◌, ◌≡◌, ◌∙◌, ap, subst, inl, inr, Bool, true, false, some, List, [], ◌∷◌,
  arith, All, Bool-cases, select, get_elem?,
}
use openrusty.Routing.{RouteConfig, Candidate, enumerate}
use openrusty.Routing.Precedence.{Ascending}

pub false-true : {b : Bool} → b ≡ false → b ≡ true → ⊥
false-true f t = cc

module _ {ℓ κ} {A : Type ℓ} (P : A → Type κ) (p : A → Bool) where
  pub All-select : (xs : List A) → All P xs → All (λ a. P a × (p a ≡ true)) (select p xs)
  All-select [] h = tt
  All-select (x ∷ xs) h = elim (Bool-cases (p x)) [
    | inl kept ↦ rw kept ((h.0, kept), All-select xs h.1)
    | inr gone ↦ rw gone (All-select xs h.1)
  ]

  pub All-select_plain : (xs : List A) → All P xs → All P (select p xs)
  All-select_plain [] h = tt
  All-select_plain (x ∷ xs) h = ground (arith, All-select_plain xs h.1)

pub select-Ascending :
    (p : Candidate → Bool) (cs : List Candidate) → Ascending cs → Ascending (select p cs)
select-Ascending p [] a = tt
select-Ascending p (c ∷ cs) a = elim (Bool-cases (p c)) [
  | inl kept ↦ rw kept (All-select_plain (λ d. c.0 ≤ d.0) p cs a.0, select-Ascending p cs a.1)
  | inr gone ↦ rw gone (select-Ascending p cs a.1)
]

pub enumerate-from : (i k : ℕ) (rs : List RouteConfig) → i ≤ k → All (λ d. i ≤ d.0) (enumerate k rs)
enumerate-from i k [] h = tt
enumerate-from i k (r ∷ rs) h = (h, enumerate-from i (suc k) rs (omega arith))

pub enumerate-Ascending : (i : ℕ) (rs : List RouteConfig) → Ascending (enumerate i rs)
enumerate-Ascending i [] = tt
enumerate-Ascending i (r ∷ rs) =
    (enumerate-from i (suc i) rs (omega arith), enumerate-Ascending (suc i) rs)

abbrev pub Indexed : List RouteConfig → Candidate → Type 0
Indexed routes c = get_elem? routes c.0 ≡ some c.1

pub enumerate-Indexed :
    (routes : List RouteConfig) (i : ℕ) (rs : List RouteConfig)
    → ((j : ℕ) → get_elem? routes (i + j) ≡ get_elem? rs j)
    → All (Indexed routes) (enumerate i rs)
enumerate-Indexed routes i [] h = tt
enumerate-Indexed routes i (r ∷ rs) h = (
  ap (get_elem? routes) (omega arith) ∙ h 0,
  enumerate-Indexed routes (suc i) rs (λ j. ap (get_elem? routes) (omega arith) ∙ h (suc j)),
)

pub All-select_parts {ℓ κ} :
    {A : Type ℓ} (Q : A → Type κ) (p : A → Bool) (x : A) (xs : List A)
    → All Q (select p (x ∷ xs))
    → (p x ≡ true → Q x) × All Q (select p xs)
All-select_parts Q p x xs h = elim (Bool-cases (p x)) [
  | inl kept ↦ let both = (rw kept at h) in ((λ _. both.0), both.1)
  | inr gone ↦ ((λ t. absurd (false-true gone t)), (rw gone at h))
]

-- What holds of every candidate that is kept holds of every route that passes the test.
pub All-covers :
    (Q : Candidate → Type 0) (p : Candidate → Bool) (i : ℕ) (rs : List RouteConfig)
    → All Q (select p (enumerate i rs))
    → (j k : ℕ) {q : RouteConfig} → k ≡ i + j
    → get_elem? rs j ≡ some q
    → p (k, q) ≡ true
    → Q (k, q)
All-covers Q p i [] h j k at e t = cc
All-covers Q p i (r ∷ rs) h zero k {q} at e t =
    let same : ◌≡◌ {A = Candidate} (i, r) (k, q) = ground arith in
    subst Q same ((All-select_parts Q p (i, r) (enumerate (suc i) rs) h).0 (ap p same ∙ t))
All-covers Q p i (r ∷ rs) h (suc j) k {q} at e t =
    All-covers Q p (suc i) rs (All-select_parts Q p (i, r) (enumerate (suc i) rs) h).1 j k {q = q}
      (omega arith) e t
