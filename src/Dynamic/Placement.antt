-- ===== src/Dynamic/Placement.antt =====
-- The placement of a binding, `bind_owned` of crates/openrusty-server/src/dynamic_routes.rs behind its
-- checks, in the two stores of the table.
use openrusty.Prelude.{
  is_some, ◌+◌, ◌≤◌, ◌≡◌, ◌∙◌, Bool, true, false, not, ◌||◌, none, some, List, [], ◌∷◌, ◌++◌,
  if◌then◌else◌, arith, length, All, All-mono, Bool-cases, Option-cases, inl, inr, pair_eq, list_eq,
  nat_eq, pair_beq, pair_beq_iff,
}
use openrusty.Prelude.Assoc.{get, insert, remove, get-insert, get-remove}
use openrusty.Prelude.Maps.{
  Unique, remove-Unique, append-Unique, length-insert, length-insert_there, length-remove,
  length-remove_there, All-remove, All-append, All-select, get-append,
}
use openrusty.Prelude.Text.{Text}
use openrusty.Dynamic.Table.{
  Key, DynamicRoutes, weight, sort_by_weight, is_bound, own, without, place,
}
use openrusty.Dynamic.Order.{IsOrdered, get-sort, All-sort}

-- The prefixes after a binding by prefix.
abbrev pub repushed : DynamicRoutes → Key → Text → List (Key × Text)
repushed t key target = remove key t.prefix ++ (key, target) ∷ []

pub repushed-Unique :
    (t : DynamicRoutes) (key : Key) (target : Text)
    → Unique t.prefix
    → Unique (repushed t key target)
repushed-Unique t key target u =
    append-Unique key target (remove key t.prefix)
      (get-remove key key t.prefix ∙ ground (arith, pair_beq_iff key key))
      (remove-Unique key t.prefix u)

pub get-repushed :
    (t : DynamicRoutes) (key k : Key) (target : Text)
    → Unique t.prefix
    → get k (sort_by_weight (repushed t key target))
      ≡ (if pair_beq key k then some target else get k t.prefix)
get-repushed t key k target u = ground (
  arith,
  get-sort k (repushed t key target) (repushed-Unique t key target u),
  get-append key k target (remove key t.prefix),
  get-remove key key t.prefix,
  get-remove key k t.prefix,
  pair_beq_iff key key,
)

-- A key is bound after a placement if it is the one placed or was bound.
pub is_bound-place :
    (t : DynamicRoutes) (key : Key) (by_prefix : Bool) (target : Text) (owned : Bool) (k : Key)
    → Unique t.prefix
    → is_bound (place t key by_prefix target owned) k ≡ (pair_beq key k || is_bound t k)
is_bound-place t key true target owned k u =
    ground (arith, get-repushed t key k target u, get-remove key k t.exact)
is_bound-place t key false target owned k u =
    ground (arith, get-insert key k target t.exact, get-remove key k t.prefix)

pub own-All :
    (P : Key → Type 0) (owned : Bool) (key : Key) (keys : List Key)
    → P key
    → All P keys
    → All P (own owned key keys)
own-All P false key keys p h = h
own-All P true key keys p h =
    All-append P (without key keys) (key ∷ [])
      (All-mono (λ k. P k × (not (pair_beq k key) ≡ true)) P (λ k q. q.0) (without key keys)
        (All-select P (λ k. not (pair_beq k key)) keys h))
      (p, tt)

pub place-apart :
    (t : DynamicRoutes) (key : Key) (by_prefix : Bool) (target : Text) (owned : Bool)
    → All (λ e. get e.0 t.exact ≡ none) t.prefix
    → All
        (λ e. get e.0 (place t key by_prefix target owned).exact ≡ none)
        (place t key by_prefix target owned).prefix
place-apart t key true target owned h =
    All-sort (λ e. get e.0 (remove key t.exact) ≡ none) (repushed t key target)
      (All-append (λ e. get e.0 (remove key t.exact) ≡ none) (remove key t.prefix)
        ((key, target) ∷ [])
        (All-mono (λ e. (get e.0 t.exact ≡ none) × (pair_beq e.0 key ≡ false))
          (λ e. get e.0 (remove key t.exact) ≡ none)
          (λ e q. ground (arith, get-remove key e.0 t.exact)) (remove key t.prefix)
          (All-remove (λ e. get e.0 t.exact ≡ none) key t.prefix h))
        (ground (arith, get-remove key key t.exact, pair_beq_iff key key), tt))
place-apart t key false target owned h =
    All-mono (λ e. (get e.0 t.exact ≡ none) × (pair_beq e.0 key ≡ false))
      (λ e. get e.0 (insert key target t.exact) ≡ none)
      (λ e q.
        ground
          (arith, get-insert key e.0 target t.exact, pair_beq_iff key e.0, pair_beq_iff e.0 key))
      (remove key t.prefix) (All-remove (λ e. get e.0 t.exact ≡ none) key t.prefix h)

pub remove-IsOrdered :
    (key : Key) (es : List (Key × Text)) → IsOrdered es → IsOrdered (remove key es)
unfolding remove
remove-IsOrdered key [] o = tt
remove-IsOrdered key ((k, v) ∷ es) o = elim (Bool-cases (pair_beq k key)) [
  | inl same ↦ rw same (remove-IsOrdered key es o.1)
  | inr other ↦ rw other (
    All-mono (λ f. (weight f.0 ≤ weight k) × (pair_beq f.0 key ≡ false))
        (λ f. weight f.0 ≤ weight k) (λ f q. q.0) (remove key es)
        (All-remove (λ f. weight f.0 ≤ weight k) key es o.0),
    remove-IsOrdered key es o.1,
  )
]

-- The removal of a key that is there makes room for it.
pub length-remove_bound :
    (key : Key) (m : List (Key × Text))
    → Unique m
    → length (remove key m) + (if is_some (get key m) then 1 else 0) ≤ length m
length-remove_bound key m u = elim (Option-cases (get key m)) [
  | inl absent ↦ ground (arith, length-remove key m)
  | inr (v, there) ↦ ground (arith, length-remove_there key m {v = v} u there)
]

pub length-insert_bound :
    (key : Key) (target : Text) (m : List (Key × Text))
    → length (insert key target m) ≤ length m + (if is_some (get key m) then 0 else 1)
length-insert_bound key target m = elim (Option-cases (get key m)) [
  | inl absent ↦ ground (arith, length-insert key target m)
  | inr (v, there) ↦ ground (arith, length-insert_there key target m {w = v} there)
]
