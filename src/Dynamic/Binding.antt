-- ===== src/Dynamic/Binding.antt =====
-- The table of crates/openrusty-server/src/dynamic_routes.rs as a map from a method and a base path to
-- a shape and a module, and the operations on it as changes of that map.
use openrusty.Prelude.{
  ◌≡◌, ◌∙◌, sym, subst, ap₂, Bool, true, false, not, Option, none, some, if◌then◌else◌, arith,
  Option-cases, inl, inr, pair_eq, list_eq, nat_eq, pair_beq, select, list_beq,
}
use openrusty.Prelude.Assoc.{get, get-remove, get-insert}
use openrusty.Prelude.Maps.{get-select, All-get}
use openrusty.Prelude.Result.{ok}
use openrusty.Prelude.Text.{Text}
use openrusty.Dynamic.{normalize_method, normalize_route_path}
use openrusty.Dynamic.Table.{
  Key, DynamicRoutes, is_for, place, drop_key, bind_key, bind_owned, unbind, unbind_module,
  base_key, is_prefix_path,
}
use openrusty.Dynamic.Valid.{IsValid}
use openrusty.Dynamic.Placement.{get-repushed}

-- What a key is bound to: by prefix or not, and the module.
abbrev pub binding : DynamicRoutes → Key → Option (Bool × Text)
binding t k = elim (get k t.exact) [
  | some target ↦ some (false, target)
  | none ↦ elim (get k t.prefix) [ some target ↦ some (true, target) | none ↦ none ]
]

-- The key that a method and a path name, if both are well formed.
abbrev pub key_of : Text → Text → Option Key
key_of method path = elim (normalize_method method) [
  | none ↦ none
  | some m ↦ elim (normalize_route_path path) [ none ↦ none | some p ↦ some (base_key m p) ]
]

pub binding-place :
    (t : DynamicRoutes) (key : Key) (by_prefix : Bool) (target : Text) (owned : Bool) (k : Key)
    → IsValid t
    → binding (place t key by_prefix target owned) k
      ≡ (if pair_beq key k then some (by_prefix, target) else binding t k)
binding-place t key true target owned k v =
    ground (arith, get-repushed t key k target v.prefix_keys, get-remove key k t.exact)
binding-place t key false target owned k v =
    ground (arith, get-insert key k target t.exact, get-remove key k t.prefix)

pub binding-drop_key :
    (t : DynamicRoutes) (key k : Key)
    → binding (drop_key t key) k ≡ (if pair_beq key k then none else binding t k)
binding-drop_key t key k = ground (arith, get-remove key k t.exact, get-remove key k t.prefix)

pub normal_path : (path : Text) {p : Text} → normalize_route_path path ≡ some p → p ≡ path
unfolding normalize_route_path
normal_path path h = ground arith

bind_key-ok :
    (t u : DynamicRoutes) (key : Key) (by_prefix : Bool) (target : Text) (owned : Bool)
    → bind_key t key by_prefix target owned ≡ ok u
    → place t key by_prefix target owned ≡ u
unfolding bind_key
bind_key-ok t u key by_prefix target owned h = ground arith

pub bind_owned-ok :
    (t u : DynamicRoutes) (method path target : Text) (owned : Bool) (key : Key)
    → bind_owned t method path target owned ≡ ok u
    → key_of method path ≡ some key
    → place t key (is_prefix_path path) target owned ≡ u
unfolding bind_owned
bind_owned-ok t u method path target owned key accepted named =
    elim (Option-cases (normalize_method method)) [
      | inl bad ↦ absurd (ground arith)
      | inr (m, good) ↦ elim (Option-cases (normalize_route_path path)) [
        | inl bad ↦ absurd (ground arith)
        | inr (p, fine) ↦
            let verbatim = normal_path path fine in
            let key_is : base_key m p ≡ key = ground arith in
            let bound : bind_key t (base_key m p) (is_prefix_path p) target owned ≡ ok u =
              ground arith in
            bind_key-ok t u key (is_prefix_path path) target owned (
              ap₂ (λ k q. bind_key t k (is_prefix_path q) target owned) (sym key_is) (sym verbatim)
              ∙ bound)
      ]
    ]

-- An accepted binding sets the key of its method and path, in the shape of the path, and no other key.
pub binding-bind_owned :
    (t u : DynamicRoutes) (method path target : Text) (owned : Bool) (key k : Key)
    → IsValid t
    → bind_owned t method path target owned ≡ ok u
    → key_of method path ≡ some key
    → binding u k ≡ (if pair_beq key k then some (is_prefix_path path, target) else binding t k)
binding-bind_owned t u method path target owned key k v accepted named =
    subst
      (λ x.
        binding x k ≡ (if pair_beq key k then some (is_prefix_path path, target) else binding t k))
      (bind_owned-ok t u method path target owned key accepted named)
      (binding-place t key (is_prefix_path path) target owned k v)

-- Unbinding a well-formed method and path clears their key and no other; any other is ignored.
pub binding-unbind :
    (t : DynamicRoutes) (method path : Text) (k : Key)
    → binding (unbind t method path) k ≡ (elim (key_of method path) [
      | none ↦ binding t k
      | some key ↦ if pair_beq key k then none else binding t k
    ])
unfolding unbind
binding-unbind t method path k = elim (Option-cases (normalize_method method)) [
  | inl bad ↦ ground arith
  | inr (m, good) ↦ elim (Option-cases (normalize_route_path path)) [
    | inl bad ↦ ground arith
    | inr (p, fine) ↦ ground (arith, binding-drop_key t (base_key m p) k)
  ]
]

abbrev unless_for : Text → Option (Bool × Text) → Option (Bool × Text)
unless_for target none = none
unless_for target (some (shape, m)) = if list_beq m target then none else some (shape, m)

-- Unbinding a module clears the keys that are bound to it, and no other key.
pub binding-unbind_module :
    (t : DynamicRoutes) (target : Text) (k : Key)
    → IsValid t
    → binding (unbind_module t target).0 k ≡ unless_for target (binding t k)
unfolding unbind_module
binding-unbind_module t target k v = elim (Option-cases (get k t.prefix)) [
  | inl absent ↦ ground (arith, by_path, by_prefix)
  | inr (m, there) ↦ ground (
    arith,
    by_path,
    by_prefix,
    All-get (λ e. get e.0 t.exact ≡ none) k t.prefix {v = m} v.apart there,
  )
]
  where
    by_path : get k (select (λ e. not (is_for target e)) t.exact) ≡ (elim (get k t.exact) [
      | none ↦ none
      | some m ↦ if not (is_for target (k, m)) then some m else none
    ])
    by_path = get-select (λ e. not (is_for target e)) k t.exact v.exact_keys

    by_prefix : get k (select (λ e. not (is_for target e)) t.prefix) ≡ (elim (get k t.prefix) [
      | none ↦ none
      | some m ↦ if not (is_for target (k, m)) then some m else none
    ])
    by_prefix = get-select (λ e. not (is_for target e)) k t.prefix v.prefix_keys
