-- ===== src/Dynamic/Order.antt =====
-- The order of the prefix bindings of crates/openrusty-server/src/dynamic_routes.rs: sorting keeps what
-- each key has, and puts the heavier keys first.
use openrusty.Prelude.{
  ◌≤◌, suc, ◌≡◌, ◌∙◌, refl, ap, none, some, List, [], ◌∷◌, leb, if◌then◌else◌, arith, length, All,
  All-mono, Bool-cases, inl, inr, pair_eq, list_eq, nat_eq, pair_beq, pair_beq_iff,
}
use openrusty.Prelude.Assoc.{get}
use openrusty.Prelude.Maps.{Unique}
use openrusty.Prelude.Text.{Text}
use openrusty.Dynamic.Table.{Key, weight, insert_by_weight, sort_by_weight}

abbrev Entry : Type 0
Entry = Key × Text

get-insert_by_weight :
    (k : Key) (e : Entry) (fs : List Entry)
    → get e.0 fs ≡ none
    → get k (insert_by_weight e fs) ≡ (if pair_beq e.0 k then some e.1 else get k fs)
unfolding insert_by_weight get
get-insert_by_weight k e [] h = refl
get-insert_by_weight k e (f ∷ fs) h = ground (
  arith,
  pair_beq_iff e.0 k,
  pair_beq_iff f.0 e.0,
  pair_beq_iff f.0 k,
  get-insert_by_weight k e fs,
)

insert_by_weight-Unique :
    (e : Entry) (fs : List Entry) → get e.0 fs ≡ none → Unique fs → Unique (insert_by_weight e fs)
unfolding insert_by_weight get
insert_by_weight-Unique e [] h u = (refl, tt)
insert_by_weight-Unique e (f ∷ fs) h u = elim (Bool-cases (leb (weight f.0) (weight e.0))) [
  | inl before ↦ rw before (h, u)
  | inr after ↦ rw after (
    ground (arith, pair_beq_iff e.0 f.0, pair_beq_iff f.0 e.0, get-insert_by_weight f.0 e fs),
    insert_by_weight-Unique e fs (ground arith) u.1,
  )
]

pub get-sort : (k : Key) (es : List Entry) → Unique es → get k (sort_by_weight es) ≡ get k es
unfolding sort_by_weight get
get-sort k [] u = refl
get-sort k (e ∷ es) u =
    ground
      (arith, get-sort e.0 es u.1, get-sort k es u.1, get-insert_by_weight k e (sort_by_weight es))

pub sort-Unique : (es : List Entry) → Unique es → Unique (sort_by_weight es)
unfolding sort_by_weight
sort-Unique [] u = tt
sort-Unique (e ∷ es) u =
    insert_by_weight-Unique e (sort_by_weight es) (get-sort e.0 es u.1 ∙ u.0) (sort-Unique es u.1)

module _ {κ} (P : Entry → Type κ) where
  All-insert : (e : Entry) (fs : List Entry) → P e → All P fs → All P (insert_by_weight e fs)
  unfolding insert_by_weight
  All-insert e [] p h = (p, tt)
  All-insert e (f ∷ fs) p h = elim (Bool-cases (leb (weight f.0) (weight e.0))) [
    | inl before ↦ rw before (p, h)
    | inr after ↦ rw after (h.0, All-insert e fs p h.1)
  ]

  pub All-sort : (es : List Entry) → All P es → All P (sort_by_weight es)
  unfolding sort_by_weight
  All-sort [] h = tt
  All-sort (e ∷ es) h = All-insert e (sort_by_weight es) h.0 (All-sort es h.1)

-- Each key is at least as heavy as those behind it.
abbrev pub IsOrdered : List Entry → Type 0
IsOrdered [] = Unit
IsOrdered (e ∷ es) = All (λ f. weight f.0 ≤ weight e.0) es × IsOrdered es

insert-IsOrdered : (e : Entry) (fs : List Entry) → IsOrdered fs → IsOrdered (insert_by_weight e fs)
unfolding insert_by_weight
insert-IsOrdered e [] o = (tt, tt)
insert-IsOrdered e (f ∷ fs) o = elim (Bool-cases (leb (weight f.0) (weight e.0))) [
  | inl before ↦
      let over : weight f.0 ≤ weight e.0 = ground arith in
      rw before (
        (
          over,
          All-mono (λ g. weight g.0 ≤ weight f.0) (λ g. weight g.0 ≤ weight e.0)
              (λ g l. omega arith) fs o.0,
        ),
        o,
      )
  | inr after ↦
      let under : weight e.0 ≤ weight f.0 = ground arith in
      rw after (All-insert (λ g. weight g.0 ≤ weight f.0) e fs under o.0, insert-IsOrdered e fs o.1)
]

pub sort-IsOrdered : (es : List Entry) → IsOrdered (sort_by_weight es)
unfolding sort_by_weight
sort-IsOrdered [] = tt
sort-IsOrdered (e ∷ es) = insert-IsOrdered e (sort_by_weight es) (sort-IsOrdered es)

length-insert_by_weight :
    (e : Entry) (fs : List Entry) → length (insert_by_weight e fs) ≡ suc (length fs)
unfolding insert_by_weight
length-insert_by_weight e [] = refl
length-insert_by_weight e (f ∷ fs) = ground (arith, length-insert_by_weight e fs)

pub length-sort : (es : List Entry) → length (sort_by_weight es) ≡ length es
unfolding sort_by_weight
length-sort [] = refl
length-sort (e ∷ es) = length-insert_by_weight e (sort_by_weight es) ∙ ap suc (length-sort es)
