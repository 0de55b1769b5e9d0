-- ===== src/Dynamic/Enforced.antt =====
-- Which bindings of the configuration a reload puts in force: `reconcile` of
-- crates/openrusty-server/src/dynamic_routes.rs on a table with room, and on a full one.
use openrusty.Prelude.{
  ℕ, ◌+◌, ◌≤◌, ◌<◌, suc, zero, ◌≡◌, ◌∙◌, subst, refl, sym, ap, All, Bool, true, false, none, some,
  List, [], ◌∷◌, arith, length, Option-cases, inl, inr, pair_eq, list_eq, nat_eq, pair_beq_iff,
  get_elem?, drop,
}
use openrusty.Prelude.Assoc.{remove}
use openrusty.Prelude.Maps.{length-append, length-insert, length-remove}
use openrusty.Prelude.Text.{Text, some_of}
use openrusty.Prelude.Result.{Result, ok, err}
use openrusty.Dynamic.{DynamicRoute, normalize_method, normalize_route_path, valid_module_name}
use openrusty.Dynamic.Table.{
  Key, DynamicRoutes, len, max_bindings, is_prefix_path, place, bind_key, bind_owned, Refusal,
  or_keep, drop_stale, overlay, reconcile,
}
use openrusty.Dynamic.Order.{length-sort}
use openrusty.Dynamic.Valid.{IsValid}
use openrusty.Dynamic.Placement.{repushed}
use openrusty.Dynamic.Steps.{drop_stale-IsValid, free_keys, free_keys-IsValid}
use openrusty.Dynamic.Binding.{binding, key_of, binding-place, bind_owned-ok, normal_path}
use openrusty.Dynamic.Reload.{names, tried, tried-IsValid, binding-overlay, bind_owned-no_key}

bind_owned-full :
    (t : DynamicRoutes) (r : DynamicRoute) (key : Key)
    → key_of r.method r.path ≡ some key
    → binding t key ≡ none
    → max_bindings ≤ len t
    → tried t r ≡ t
unfolding bind_owned bind_key
bind_owned-full t r key named free full = elim (Option-cases (normalize_method r.method)) [
  | inl bad ↦ absurd (ground arith)
  | inr (m, good) ↦ elim (Option-cases (normalize_route_path r.path)) [
    | inl bad ↦ absurd (ground arith)
    | inr (p, fine) ↦ ground arith
  ]
]

-- The binding of a route is for a key that is not bound.
abbrev pub IsNew : DynamicRoutes → DynamicRoute → Type 0
IsNew t r = (key : Key) → key_of r.method r.path ≡ some key → binding t key ≡ none

tried-full :
    (t : DynamicRoutes) (r : DynamicRoute) → max_bindings ≤ len t → IsNew t r → tried t r ≡ t
tried-full t r full new = elim (Option-cases (key_of r.method r.path)) [
  | inr (key, named) ↦ bind_owned-full t r key named (new key named) full
  | inl absent ↦ go absent (bind_owned t r.method r.path r.target true) refl
]
  where
    go :
        key_of r.method r.path ≡ none
        → (o : Result Refusal DynamicRoutes) → bind_owned t r.method r.path r.target true ≡ o
        → or_keep t o ≡ t
    go absent (err e) h = refl
    go absent (ok u) h = absurd (bind_owned-no_key t u r.method r.path r.target true absent h)

overlay-full :
    (cfg : List DynamicRoute) (t : DynamicRoutes)
    → max_bindings ≤ len t
    → All (IsNew t) cfg
    → overlay cfg t ≡ t
unfolding overlay
overlay-full [] t full new = refl
overlay-full (r ∷ cfg) t full new =
    ap (overlay cfg) (tried-full t r full new.0) ∙ overlay-full cfg t full new.1

-- A table that is full of bindings made at run time comes through a reload as it was, if no binding of the
-- configuration is for a key that is bound: each of these bindings is dropped, without an error.
pub reconcile_full :
    (t : DynamicRoutes) (cfg : List DynamicRoute)
    → t.config_keys ≡ []
    → max_bindings ≤ len t
    → All (IsNew t) cfg
    → reconcile t cfg ≡ t
unfolding reconcile drop_stale
reconcile_full t cfg none_owned full new =
    ap (λ ks. reconcile (record t { config_keys = ks }) cfg) none_owned
    ∙ overlay-full cfg (free_keys t) full new
    ∙ ap (λ ks. record t { config_keys = ks }) (sym none_owned)

len-drop_stale : (ks : List Key) (t : DynamicRoutes) → len (drop_stale ks t) ≤ len t
unfolding drop_stale
len-drop_stale [] t = omega arith
len-drop_stale (k ∷ ks) t = omega (
  arith,
  length-remove k t.exact,
  length-remove k t.prefix,
  len-drop_stale ks (record t { exact = remove k t.exact; prefix = remove k t.prefix }),
)

-- Enough room lets a well-formed binding in.
bind_owned-room :
    (t : DynamicRoutes) (r : DynamicRoute) (key : Key)
    → key_of r.method r.path ≡ some key
    → valid_module_name r.target ≡ true
    → len t < max_bindings
    → tried t r ≡ place t key (is_prefix_path r.path) r.target true
unfolding bind_owned bind_key
bind_owned-room t r key named fine_name room = elim (Option-cases (normalize_method r.method)) [
  | inl bad ↦ absurd (ground arith)
  | inr (m, good) ↦ elim (Option-cases (normalize_route_path r.path)) [
    | inl bad ↦ absurd (ground arith)
    | inr (p, fine) ↦ ground (arith, normal_path r.path {p = p} fine)
  ]
]

len-place :
    (t : DynamicRoutes) (key : Key) (by_prefix : Bool) (target : Text) (owned : Bool)
    → len (place t key by_prefix target owned) ≤ len t + 1
len-place t key true target owned = omega (
  arith,
  length-sort (repushed t key target),
  length-append (remove key t.prefix) ((key, target) ∷ []),
  length-remove key t.exact,
  length-remove key t.prefix,
)
len-place t key false target owned =
    omega (arith, length-insert key target t.exact, length-remove key t.prefix)

len-tried : (t : DynamicRoutes) (r : DynamicRoute) → len (tried t r) ≤ len t + 1
len-tried t r = go (bind_owned t r.method r.path r.target true) refl
  where
    go :
        (o : Result Refusal DynamicRoutes)
        → bind_owned t r.method r.path r.target true ≡ o
        → len (or_keep t o) ≤ len t + 1
    go (err e) h = omega arith
    go (ok u) h = elim (Option-cases (key_of r.method r.path)) [
      | inl absent ↦ absurd (bind_owned-no_key t u r.method r.path r.target true absent h)
      | inr (key, named) ↦
          subst (λ x. len x ≤ len t + 1)
            (bind_owned-ok t u r.method r.path r.target true key h named)
            (len-place t key (is_prefix_path r.path) r.target true)
    ]

overlay_first :
    (rs : List DynamicRoute) (t : DynamicRoutes) (r : DynamicRoute) (key : Key)
    → IsValid t
    → len t < max_bindings
    → key_of r.method r.path ≡ some key
    → valid_module_name r.target ≡ true
    → some_of (names key) rs ≡ false
    → binding (overlay (r ∷ rs) t) key ≡ some (is_prefix_path r.path, r.target)
unfolding overlay
overlay_first rs t r key v room named fine_name last =
    binding-overlay rs (tried t r) key (tried-IsValid t r v) last
    ∙ ap (λ x. binding x key) (bind_owned-room t r key named fine_name room)
    ∙ binding-place t key (is_prefix_path r.path) r.target true key v
    ∙ ground (arith, pair_beq_iff key key)

overlay-enforced :
    (rs : List DynamicRoute) (t : DynamicRoutes) (i : ℕ) (r : DynamicRoute) (key : Key)
    → IsValid t
    → len t + length rs ≤ max_bindings
    → get_elem? rs i ≡ some r
    → key_of r.method r.path ≡ some key
    → valid_module_name r.target ≡ true
    → some_of (names key) (drop (suc i) rs) ≡ false
    → binding (overlay rs t) key ≡ some (is_prefix_path r.path, r.target)
unfolding overlay
overlay-enforced [] t i r key v room at named fine_name last = cc
overlay-enforced (s ∷ rs) t zero r key v room at named fine_name last =
    let first : r ≡ s = ground arith in
    subst (λ x. binding (overlay (x ∷ rs) t) key ≡ some (is_prefix_path r.path, r.target)) first
      (overlay_first rs t r key v (omega arith) named fine_name last)
overlay-enforced (s ∷ rs) t (suc i) r key v room at named fine_name last =
    overlay-enforced rs (tried t s) i r key (tried-IsValid t s v) (omega (arith, len-tried t s)) at
      named fine_name last

-- On a valid table with room for the whole configuration, a reload puts every well-formed binding of it
-- in force that no later one replaces.
pub reconcile_enforces :
    (t : DynamicRoutes) (cfg : List DynamicRoute) (i : ℕ) (r : DynamicRoute) (key : Key)
    → IsValid t
    → len t + length cfg ≤ max_bindings
    → get_elem? cfg i ≡ some r
    → key_of r.method r.path ≡ some key
    → valid_module_name r.target ≡ true
    → some_of (names key) (drop (suc i) cfg) ≡ false
    → binding (reconcile t cfg) key ≡ some (is_prefix_path r.path, r.target)
unfolding reconcile
reconcile_enforces t cfg i r key v room at named fine_name last =
    overlay-enforced cfg (drop_stale t.config_keys (free_keys t)) i r key
      (drop_stale-IsValid t.config_keys (free_keys t) refl (free_keys-IsValid t v))
      (omega (arith, len-drop_stale t.config_keys (free_keys t))) at named fine_name last
