-- ===== src/Routing/Precedence.antt =====
-- The path precedence inside one host class of crates/openrusty-server/src/pipeline/mod.rs: what the
-- loop of `path_in_class` finds among its candidates.
use openrusty.Prelude.{
  ℕ, ◌≤◌, ◌<◌, ◌≡◌, ◌⊎◌, inl, inr, refl, Bool, true, false, not, ◌&&◌, ◌||◌, Option, none, some,
  List, [], ◌∷◌, leb, if◌then◌else◌, arith, list_beq, nat_eq, All, All-mono, Bool-cases,
}
use openrusty.Prelude.Text.{Text, starts_with, byte_len}
use openrusty.Routing.{RouteConfig, Candidate, next_exact, longer, next_best, class_loop}

-- The path of a route fits: equal for an exact route, and a prefix for any other.
abbrev pub fits : Text → RouteConfig → Bool
fits path r = if r.exact then list_beq r.path_prefix path else starts_with path r.path_prefix

abbrev pub is_exact_hit : Text → Candidate → Bool
is_exact_hit path (i, r) = r.exact && list_beq r.path_prefix path

abbrev pub is_prefix_hit : Text → Candidate → Bool
is_prefix_hit path (i, r) = not r.exact && starts_with path r.path_prefix

pub exact_fold : List Candidate → Text → Option ℕ → Option ℕ
exact_fold [] path e = e
exact_fold (c ∷ cs) path e = exact_fold cs path (next_exact path c e)

pub best_fold : List Candidate → Text → Option (ℕ × ℕ) → Option (ℕ × ℕ)
best_fold [] path b = b
best_fold (c ∷ cs) path b = best_fold cs path (next_best path c b)

pub class_loop_folds :
    (cs : List Candidate) (path : Text) (e : Option ℕ) (b : Option (ℕ × ℕ))
    → class_loop cs path e b ≡ class_loop [] path (exact_fold cs path e) (best_fold cs path b)
unfolding class_loop exact_fold best_fold
class_loop_folds [] path e b = refl
class_loop_folds (c ∷ cs) path e b =
    class_loop_folds cs path (next_exact path c e) (next_best path c b)

-- The order of two hits with their prefixes: the longer one, or the first of two as long.
abbrev pub Leads : Candidate → Candidate → Type 0
Leads (i, r) (j, q) =
    (byte_len q.path_prefix < byte_len r.path_prefix)
    ⊎ ((byte_len q.path_prefix ≡ byte_len r.path_prefix) × (i ≤ j))

-- The indices ascend.
abbrev pub Ascending : List Candidate → Type 0
Ascending [] = Unit
Ascending (c ∷ cs) = All (λ d. c.0 ≤ d.0) cs × Ascending cs

starts_with_self : (s : Text) → starts_with s s ≡ true
unfolding starts_with
starts_with_self [] = refl
starts_with_self (c ∷ s) = ground (arith, starts_with_self s)

-- The test for equality in the loop adds nothing to that for a prefix.
starts_with_or_eq : (path p : Text) → (list_beq path p || starts_with path p) ≡ starts_with path p
unfolding starts_with
starts_with_or_eq [] [] = refl
starts_with_or_eq [] (p ∷ ps) = refl
starts_with_or_eq (c ∷ path) [] = refl
starts_with_or_eq (c ∷ path) (p ∷ ps) = ground (arith, starts_with_or_eq path ps)

next_best_lem :
    (path : Text) (c : Candidate) (b : Option (ℕ × ℕ))
    → next_best path c b
      ≡ (if is_prefix_hit path c then longer c.0 (byte_len c.1.path_prefix) b else b)
next_best_lem path c b = rw (next_best, starts_with_or_eq path c.1.path_prefix) refl

-- A hit that is no longer than the best one leaves it, and a longer one takes its place.
next_best-some :
    (path : Text) (c b : Candidate)
    → next_best path c (some (b.0, byte_len b.1.path_prefix)) ≡ (
        if is_prefix_hit path c && not (leb (byte_len c.1.path_prefix) (byte_len b.1.path_prefix))
        then some (c.0, byte_len c.1.path_prefix)
        else some (b.0, byte_len b.1.path_prefix))
next_best-some path c b =
    ground (arith, next_best_lem path c (some (b.0, byte_len b.1.path_prefix)))

Leads-trans : (a b c : Candidate) → Leads a b → Leads b c → Leads a c
Leads-trans a b c h k = omega arith

false-true : {b : Bool} → b ≡ false → b ≡ true → ⊥
false-true f t = cc

module _ (P : Candidate → Type 0) (path : Text) where
  exact_fold_kept : (cs : List Candidate) (i : ℕ) → exact_fold cs path (some i) ≡ some i
  unfolding exact_fold
  exact_fold_kept [] i = refl
  exact_fold_kept (c ∷ cs) i = exact_fold_kept cs i

  -- The first exact hit, or the fact that there is none.
  pub exact_fold_lem :
      (cs : List Candidate)
      → All P cs
      → Ascending cs
      → ((exact_fold cs path none ≡ none) × All (λ d. is_exact_hit path d ≡ false) cs)
        ⊎ ((c : Candidate) × (exact_fold cs path none ≡ some c.0)
            × P c
            × (is_exact_hit path c ≡ true)
            × All (λ d. is_exact_hit path d ≡ true → c.0 ≤ d.0) cs)
  unfolding exact_fold
  exact_fold_lem [] p a = inl (refl, tt)
  exact_fold_lem (c ∷ cs) p a = elim (Bool-cases (is_exact_hit path c)) [
    | inl hit ↦
        let later : All (λ d. is_exact_hit path d ≡ true → c.0 ≤ d.0) cs =
          All-mono (λ d. c.0 ≤ d.0) (λ d. is_exact_hit path d ≡ true → c.0 ≤ d.0) (λ d l _. l) cs
            a.0 in
        inr
          (c, rw (next_exact, hit) (exact_fold_kept cs c.0), p.0, hit, ((λ _. omega arith), later))
    | inr miss ↦ elim (exact_fold_lem cs p.1 a.1) [
      | inl (e, none_hit) ↦ inl (rw (next_exact, miss) e, (miss, none_hit))
      | inr (d, e, pd, hit, first) ↦
          inr (d, rw (next_exact, miss) e, pd, hit, ((λ h. absurd (false-true miss h)), first))
    ]
  ]

  -- A hit stays or gives way to one that leads it.
  best_fold-some :
      (cs : List Candidate) (b : Candidate)
      → All P cs
      → Ascending cs
      → All (λ d. b.0 ≤ d.0) cs
      → P b
      → (is_prefix_hit path b ≡ true)
      → (c : Candidate) × (best_fold cs path (some (b.0, byte_len b.1.path_prefix))
          ≡ some (c.0, byte_len c.1.path_prefix))
        × P c
        × (is_prefix_hit path c ≡ true)
        × Leads c b
        × All (λ d. is_prefix_hit path d ≡ true → Leads c d) cs
  unfolding best_fold
  best_fold-some [] b p a after pb hb = (b, refl, pb, hb, inr (refl, omega arith), tt)
  best_fold-some (c ∷ cs) b p a after pb hb = elim (Bool-cases (is_prefix_hit path c)) [
    | inl hit ↦ elim (Bool-cases (leb (byte_len c.1.path_prefix) (byte_len b.1.path_prefix))) [
      | inl short ↦
          let (d, e, pd, hd, over, rest) = best_fold-some cs b p.1 a.1 after.1 pb hb in
          let led : Leads b c = ground arith in
          (
            d,
            rw (next_best-some path c b, hit, short) e,
            pd,
            hd,
            over,
            ((λ _. Leads-trans d b c over led), rest),
          )
      | inr long ↦
          let (d, e, pd, hd, over, rest) = best_fold-some cs c p.1 a.1 a.0 p.0 hit in
          let led : Leads c b = ground arith in
          (
            d,
            rw (next_best-some path c b, hit, long) e,
            pd,
            hd,
            Leads-trans d c b over led,
            ((λ _. over), rest),
          )
    ]
    | inr miss ↦
        let (d, e, pd, hd, over, rest) = best_fold-some cs b p.1 a.1 after.1 pb hb in
        (
          d,
          rw (next_best-some path c b, miss) e,
          pd,
          hd,
          over,
          ((λ h. absurd (false-true miss h)), rest),
        )
  ]

  pub best_fold_lem :
      (cs : List Candidate)
      → All P cs
      → Ascending cs
      → ((best_fold cs path none ≡ none) × All (λ d. is_prefix_hit path d ≡ false) cs)
        ⊎ ((c : Candidate) × (best_fold cs path none ≡ some (c.0, byte_len c.1.path_prefix))
            × P c
            × (is_prefix_hit path c ≡ true)
            × All (λ d. is_prefix_hit path d ≡ true → Leads c d) cs)
  unfolding best_fold
  best_fold_lem [] p a = inl (refl, tt)
  best_fold_lem (c ∷ cs) p a = elim (Bool-cases (is_prefix_hit path c)) [
    | inl hit ↦
        let (d, e, pd, hd, over, rest) = best_fold-some cs c p.1 a.1 a.0 p.0 hit in
        inr (d, rw (next_best_lem path c none, hit) e, pd, hd, ((λ _. over), rest))
    | inr miss ↦ elim (best_fold_lem cs p.1 a.1) [
      | inl (e, none_hit) ↦ inl (rw (next_best_lem path c none, miss) e, (miss, none_hit))
      | inr (d, e, pd, hd, rest) ↦ inr (
        d,
        rw (next_best_lem path c none, miss) e,
        pd,
        hd,
        ((λ h. absurd (false-true miss h)), rest),
      )
    ]
  ]
