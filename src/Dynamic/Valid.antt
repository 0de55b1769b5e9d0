-- ===== src/Dynamic/Valid.antt =====
-- The invariant of the table of crates/openrusty-server/src/dynamic_routes.rs, over its operations on
-- one key.
use openrusty.Prelude.{
  ◌≤◌, ◌≡◌, refl, Bool, true, false, not, ◌&&◌, none, [], ◌∷◌, leb, arith, All, All-mono, pair_eq,
  list_eq, nat_eq, pair_beq, pair_beq_iff,
}
use openrusty.Prelude.Assoc.{get, remove, get-remove}
use openrusty.Prelude.Maps.{
  Unique, insert-Unique, remove-Unique, length-remove, length-append, All-remove, All-select,
}
use openrusty.Prelude.Text.{Text}
use openrusty.Dynamic.Table.{
  Key, DynamicRoutes, len, max_bindings, is_bound, own, without, place, drop_key,
}
use openrusty.Dynamic.Order.{IsOrdered, sort-Unique, sort-IsOrdered, length-sort}
use openrusty.Dynamic.Placement.{
  repushed, repushed-Unique, is_bound-place, own-All, place-apart, remove-IsOrdered,
  length-remove_bound, length-insert_bound,
}

-- No key is bound twice, be it as a path or as a prefix; the heavier prefixes stand first; the table is
-- within its bound; and the keys of the configuration are bound.
pub record IsValid (t : DynamicRoutes) : Type 0 where
  pub exact_keys : Unique t.exact
  pub prefix_keys : Unique t.prefix
  pub apart : All (λ e. get e.0 t.exact ≡ none) t.prefix
  pub ordered : IsOrdered t.prefix
  pub room : len t ≤ max_bindings
  pub owned : All (λ k. is_bound t k ≡ true) t.config_keys

place-room :
    (t : DynamicRoutes) (key : Key) (by_prefix : Bool) (target : Text) (owned : Bool)
    → IsValid t
    → (not (is_bound t key) && leb max_bindings (len t)) ≡ false
    → len (place t key by_prefix target owned) ≤ max_bindings
place-room t key true target owned v free = ground (
  arith,
  v.room,
  length-sort (repushed t key target),
  length-append (remove key t.prefix) ((key, target) ∷ []),
  length-remove_bound key t.exact v.exact_keys,
  length-remove_bound key t.prefix v.prefix_keys,
)
place-room t key false target owned v free = ground (
  arith,
  v.room,
  length-insert_bound key target t.exact,
  length-remove_bound key t.prefix v.prefix_keys,
)

place-IsOrdered :
    (t : DynamicRoutes) (key : Key) (by_prefix : Bool) (target : Text) (owned : Bool)
    → IsOrdered t.prefix
    → IsOrdered (place t key by_prefix target owned).prefix
place-IsOrdered t key true target owned o = sort-IsOrdered (repushed t key target)
place-IsOrdered t key false target owned o = remove-IsOrdered key t.prefix o

place-keys :
    (t : DynamicRoutes) (key : Key) (by_prefix : Bool) (target : Text) (owned : Bool)
    → IsValid t
    → Unique (place t key by_prefix target owned).exact
      × Unique (place t key by_prefix target owned).prefix
place-keys t key true target owned v = (
  remove-Unique key t.exact v.exact_keys,
  sort-Unique (repushed t key target) (repushed-Unique t key target v.prefix_keys),
)
place-keys t key false target owned v =
    (insert-Unique key target t.exact v.exact_keys, remove-Unique key t.prefix v.prefix_keys)

place-owned :
    (t : DynamicRoutes) (key : Key) (by_prefix : Bool) (target : Text) (owned : Bool)
    → (place t key by_prefix target owned).config_keys ≡ own owned key t.config_keys
place-owned t key true target owned = refl
place-owned t key false target owned = refl

pub place-IsValid :
    (t : DynamicRoutes) (key : Key) (by_prefix : Bool) (target : Text) (owned : Bool)
    → IsValid t
    → (not (is_bound t key) && leb max_bindings (len t)) ≡ false
    → IsValid (place t key by_prefix target owned)
place-IsValid t key by_prefix target owned v free = record {
  exact_keys = (place-keys t key by_prefix target owned v).0;
  prefix_keys = (place-keys t key by_prefix target owned v).1;
  apart = place-apart t key by_prefix target owned v.apart;
  ordered = place-IsOrdered t key by_prefix target owned v.ordered;
  room = place-room t key by_prefix target owned v free;
  owned = rw (place-owned t key by_prefix target owned) (
      own-All (λ k. is_bound (place t key by_prefix target owned) k ≡ true) owned key t.config_keys
        (ground (
          arith,
          is_bound-place t key by_prefix target owned key v.prefix_keys,
          pair_beq_iff key key,
        ))
        (All-mono (λ k. is_bound t k ≡ true)
          (λ k. is_bound (place t key by_prefix target owned) k ≡ true)
          (λ k b. ground (arith, is_bound-place t key by_prefix target owned k v.prefix_keys))
          t.config_keys v.owned));
}

pub drop_key-IsValid : (t : DynamicRoutes) (key : Key) → IsValid t → IsValid (drop_key t key)
drop_key-IsValid t key v = record {
  exact_keys = remove-Unique key t.exact v.exact_keys;
  prefix_keys = remove-Unique key t.prefix v.prefix_keys;
  apart =
      All-mono (λ e. (get e.0 t.exact ≡ none) × (pair_beq e.0 key ≡ false))
        (λ e. get e.0 (remove key t.exact) ≡ none)
        (λ e q. ground (arith, get-remove key e.0 t.exact)) (remove key t.prefix)
        (All-remove (λ e. get e.0 t.exact ≡ none) key t.prefix v.apart);
  ordered = remove-IsOrdered key t.prefix v.ordered;
  room = omega (arith, length-remove key t.exact, length-remove key t.prefix, v.room);
  owned =
      All-mono (λ k. (is_bound t k ≡ true) × (not (pair_beq k key) ≡ true))
        (λ k. is_bound (drop_key t key) k ≡ true)
        (λ k q. ground (
          arith,
          q,
          get-remove key k t.exact,
          get-remove key k t.prefix,
          pair_beq_iff key k,
          pair_beq_iff k key,
        ))
        (without key t.config_keys)
        (All-select (λ k. is_bound t k ≡ true) (λ k. not (pair_beq k key)) t.config_keys v.owned);
}
