-- ===== src/Dynamic/Reload.antt =====
-- What a reload does to the bindings: `reconcile` of crates/openrusty-server/src/dynamic_routes.rs.
use openrusty.Prelude.{
  ◌≡◌, ◌∙◌, refl, Bool, true, false, none, some, List, [], ◌∷◌, if◌then◌else◌, arith, Option-cases,
  inl, inr, pair_eq, list_eq, nat_eq, pair_beq, contains,
}
use openrusty.Prelude.Assoc.{remove, get-remove}
use openrusty.Prelude.Text.{Text, some_of}
use openrusty.Prelude.Result.{Result, ok, err}
use openrusty.Dynamic.{DynamicRoute, normalize_method, normalize_route_path}
use openrusty.Dynamic.Table.{
  Key, DynamicRoutes, bind_owned, Refusal, or_keep, drop_stale, overlay, reconcile,
}
use openrusty.Dynamic.Valid.{IsValid}
use openrusty.Dynamic.Steps.{
  bind_owned-IsValid, or_keep-IsValid, drop_stale-IsValid, free_keys, free_keys-IsValid,
}
use openrusty.Dynamic.Binding.{binding, key_of, binding-bind_owned}

-- A route of the configuration names a key.
abbrev pub names : Key → DynamicRoute → Bool
names k r = elim (key_of r.method r.path) [ none ↦ false | some key ↦ pair_beq key k ]

pub binding-drop_stale :
    (ks : List Key) (t : DynamicRoutes) (k : Key)
    → binding (drop_stale ks t) k ≡ (if contains ks k then none else binding t k)
unfolding drop_stale
binding-drop_stale [] t k = refl
binding-drop_stale (j ∷ ks) t k =
    binding-drop_stale ks (record t { exact = remove j t.exact; prefix = remove j t.prefix }) k
    ∙ ground (arith, get-remove j k t.exact, get-remove j k t.prefix)

-- Without a key there is no binding to make.
pub bind_owned-no_key :
    (t u : DynamicRoutes) (method path target : Text) (owned : Bool)
    → key_of method path ≡ none
    → bind_owned t method path target owned ≡ ok u
    → ⊥
unfolding bind_owned
bind_owned-no_key t u method path target owned h accepted =
    elim (Option-cases (normalize_method method)) [
      | inl bad ↦ ground arith
      | inr (m, good) ↦ elim (Option-cases (normalize_route_path path)) [
        | inl bad ↦ ground arith
        | inr (p, fine) ↦ ground arith
      ]
    ]

-- The table after an attempt to bind a route.
abbrev pub tried : DynamicRoutes → DynamicRoute → DynamicRoutes
tried t r = or_keep t (bind_owned t r.method r.path r.target true)

pub tried-IsValid : (t : DynamicRoutes) (r : DynamicRoute) → IsValid t → IsValid (tried t r)
tried-IsValid t r v =
    or_keep-IsValid t (bind_owned t r.method r.path r.target true) v
      (bind_owned-IsValid t r.method r.path r.target true v)

binding-or_keep :
    (t : DynamicRoutes) (r : DynamicRoute) (k : Key) (o : Result Refusal DynamicRoutes)
    → IsValid t
    → bind_owned t r.method r.path r.target true ≡ o
    → names k r ≡ false
    → binding (or_keep t o) k ≡ binding t k
binding-or_keep t r k (err e) v h other = refl
binding-or_keep t r k (ok u) v h other = elim (Option-cases (key_of r.method r.path)) [
  | inl absent ↦ absurd (bind_owned-no_key t u r.method r.path r.target true absent h)
  | inr (key, named) ↦
      binding-bind_owned t u r.method r.path r.target true key k v h named ∙ ground arith
]

pub binding-overlay :
    (rs : List DynamicRoute) (t : DynamicRoutes) (k : Key)
    → IsValid t
    → some_of (names k) rs ≡ false
    → binding (overlay rs t) k ≡ binding t k
unfolding overlay
binding-overlay [] t k v h = refl
binding-overlay (r ∷ rs) t k v h =
    binding-overlay rs (tried t r) k (tried-IsValid t r v) (ground arith)
    ∙ binding-or_keep t r k (bind_owned t r.method r.path r.target true) v refl (ground arith)

-- A key that the new configuration does not name is unbound by a reload if the old configuration
-- owned it, and else keeps what it was bound to at run time.
pub binding-reconcile :
    (t : DynamicRoutes) (cfg : List DynamicRoute) (k : Key)
    → IsValid t
    → some_of (names k) cfg ≡ false
    → binding (reconcile t cfg) k ≡ (if contains t.config_keys k then none else binding t k)
unfolding reconcile
binding-reconcile t cfg k v h =
    binding-overlay cfg (drop_stale t.config_keys (free_keys t)) k
      (drop_stale-IsValid t.config_keys (free_keys t) refl (free_keys-IsValid t v)) h
    ∙ binding-drop_stale t.config_keys (free_keys t) k
