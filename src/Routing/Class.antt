-- ===== src/Routing/Class.antt =====
-- The winner of one host class of crates/openrusty-server/src/pipeline/mod.rs.
use openrusty.Prelude.{
  ◌≤◌, ◌≡◌, ◌⊎◌, ◌∙◌, sym, ap, inl, inr, true, false, none, some, List, arith, list_beq_iff, nat_eq,
  All, All-mono, All-both, Bool-cases,
}
use openrusty.Prelude.Text.{Text, byte_len}
use openrusty.Routing.{Candidate, class_loop, path_in_class}
use openrusty.Routing.Precedence.{
  fits, is_exact_hit, is_prefix_hit, class_loop_folds, Leads, Ascending, exact_fold_lem,
  best_fold_lem,
}

-- An exact hit wins over a prefix, the longer prefix over the shorter, and the first of two alike.
abbrev pub Wins : Candidate → Candidate → Type 0
Wins c d = ((c.1.exact ≡ true) × (d.1.exact ≡ false)) ⊎ ((c.1.exact ≡ d.1.exact) × Leads c d)

exact-Wins :
    (path : Text) (c d : Candidate)
    → is_exact_hit path c ≡ true
    → (is_exact_hit path d ≡ true → c.0 ≤ d.0)
    → fits path d.1 ≡ true
    → Wins c d
exact-Wins path c d hit first ok = elim (Bool-cases d.1.exact) [
  | inl exact ↦
      let c_path = (list_beq_iff c.1.path_prefix path).0 (ground arith) in
      let d_path = (list_beq_iff d.1.path_prefix path).0 (ground arith) in
      inr (ground arith, inr (ap byte_len (d_path ∙ sym c_path), first (ground arith)))
  | inr other ↦ inl (ground arith, other)
]

prefix-Wins :
    (path : Text) (c d : Candidate)
    → is_prefix_hit path c ≡ true
    → is_exact_hit path d ≡ false
    → (is_prefix_hit path d ≡ true → Leads c d)
    → fits path d.1 ≡ true
    → Wins c d
prefix-Wins path c d hit no_exact leads ok = inr (ground arith, leads (ground arith))

module _ (P : Candidate → Type 0) (path : Text) where
  -- A class has no winner if no candidate fits; otherwise a candidate that fits and wins over each.
  pub path_in_class_lem :
      (cs : List Candidate)
      → All P cs
      → Ascending cs
      → ((path_in_class cs path ≡ none) × All (λ d. fits path d.1 ≡ false) cs)
        ⊎ ((c : Candidate) × (path_in_class cs path ≡ some c.0)
            × P c
            × (fits path c.1 ≡ true)
            × All (λ d. fits path d.1 ≡ true → Wins c d) cs)
  unfolding path_in_class class_loop
  path_in_class_lem cs p a = elim (exact_fold_lem P path cs p a) [
    | inr (c, e, pc, hit, first) ↦ inr (
      c,
      class_loop_folds cs path none none ∙ ground (arith, e),
      pc,
      ground arith,
      All-mono (λ d. is_exact_hit path d ≡ true → c.0 ≤ d.0) (λ d. fits path d.1 ≡ true → Wins c d)
          (λ d. exact-Wins path c d hit) cs first,
    )
    | inl (e, no_exact) ↦ elim (best_fold_lem P path cs p a) [
      | inr (c, f, pc, hit, leads) ↦ inr (
        c,
        class_loop_folds cs path none none ∙ ground (arith, e, f),
        pc,
        ground arith,
        All-mono (λ d. (is_exact_hit path d ≡ false) × (is_prefix_hit path d ≡ true → Leads c d))
            (λ d. fits path d.1 ≡ true → Wins c d) (λ d h. prefix-Wins path c d hit h.0 h.1) cs
            (All-both (λ d. is_exact_hit path d ≡ false)
              (λ d. is_prefix_hit path d ≡ true → Leads c d) cs no_exact leads),
      )
      | inl (f, no_prefix) ↦ inl (
        class_loop_folds cs path none none ∙ ground (arith, e, f),
        All-mono (λ d. (is_exact_hit path d ≡ false) × (is_prefix_hit path d ≡ false))
            (λ d. fits path d.1 ≡ false) (λ d h. ground arith) cs
            (All-both (λ d. is_exact_hit path d ≡ false) (λ d. is_prefix_hit path d ≡ false) cs
              no_exact no_prefix),
      )
    ]
  ]
