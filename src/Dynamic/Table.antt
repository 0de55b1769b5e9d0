-- ===== src/Dynamic/Table.antt =====
-- The table of crates/openrusty-server/src/dynamic_routes.rs. An operation returns the new table; the
-- map of exact paths is an association list.
use openrusty.Prelude.{
  is_some, ℕ, ◌+◌, ◌-◌, Bool, true, false, not, ◌&&◌, ◌||◌, Option, none, some, List, [], ◌∷◌, ◌++◌,
  leb, if◌then◌else◌, length, select, list_beq, nat_eq, list_eq, pair_eq, pair_beq,
}
use openrusty.Prelude.Assoc.{get, insert, remove}
use openrusty.Prelude.Result.{Result, ok, err}
use openrusty.Prelude.Text.{
  Text, uppercase, strip_prefix, strip_suffix, byte_len, is_empty, starts_with, some_of,
}
use openrusty.Dynamic.{
  DynamicRoute, normalize_method, normalize_route_path, valid_module_name, slash, star,
}

abbrev pub max_bindings : ℕ
max_bindings = 4096

-- The method in upper case, and the path without the marker of a prefix.
abbrev pub Key : Type 0
Key = Text × Text

pub record DynamicRoutes : Type 0 where
  pub exact : List (Key × Text)
  pub prefix : List (Key × Text)
  pub config_keys : List Key

abbrev pub new : DynamicRoutes
new = record { exact = []; prefix = []; config_keys = [] }

abbrev pub len : DynamicRoutes → ℕ
len t = length t.exact + length t.prefix

-- `/api/*` owns `/api` and everything below it.
unfoldable pub covers : Text → Text → Bool
unfolding strip_prefix starts_with
covers p path = elim (strip_prefix path p) [
  | none ↦ false
  | some rest ↦ is_empty rest || starts_with rest slash
]

-- The first prefix binding for the method that covers the path.
unfoldable pub find_prefix : Text → Text → List (Key × Text) → Option Text
unfolding covers
find_prefix method path [] = none
find_prefix method path (((m, p), target) ∷ rest) =
    if list_beq m method && covers p path then some target else find_prefix method path rest

unfoldable pub lookup : DynamicRoutes → Text → Text → Option Text
unfolding get find_prefix
lookup t method path =
    let m = uppercase method in
    elim (get (m, path) t.exact) [ some target ↦ some target | none ↦ find_prefix m path t.prefix ]

unfoldable pub base_key : Text → Text → Key
unfolding strip_suffix
base_key method path = elim (strip_suffix path star) [
  | none ↦ (method, path)
  | some base ↦ (method, base)
]

-- `ends_with("/*")`
abbrev pub is_prefix_path : Text → Bool
is_prefix_path path = is_some (strip_suffix path star)

abbrev pub weight : Key → ℕ
weight (m, p) = byte_len m + byte_len p

-- `sort_by` the weight, descending and stable, as an insertion sort.
unfoldable pub insert_by_weight : Key × Text → List (Key × Text) → List (Key × Text)
insert_by_weight e [] = e ∷ []
insert_by_weight e (f ∷ fs) =
    if leb (weight f.0) (weight e.0) then e ∷ f ∷ fs else f ∷ insert_by_weight e fs

unfoldable pub sort_by_weight : List (Key × Text) → List (Key × Text)
unfolding insert_by_weight
sort_by_weight [] = []
sort_by_weight (e ∷ es) = insert_by_weight e (sort_by_weight es)

-- Why a binding is refused.
pub data Refusal : Type 0 where
  invalid_method invalid_path invalid_module table_full : Refusal

-- `retain(|k| k != key)` on the keys.
abbrev pub without : Key → List Key → List Key
without key = select (λ k. not (pair_beq k key))

abbrev pub is_bound : DynamicRoutes → Key → Bool
is_bound t key = is_some (get key t.exact) || is_some (get key t.prefix)

abbrev pub own : Bool → Key → List Key → List Key
own true key keys = without key keys ++ key ∷ []
own false key keys = keys

-- The table once the parts are normal and there is room.
abbrev pub place : DynamicRoutes → Key → Bool → Text → Bool → DynamicRoutes
place t key true target owned = record {
  exact = remove key t.exact;
  prefix = sort_by_weight (remove key t.prefix ++ (key, target) ∷ []);
  config_keys = own owned key t.config_keys;
}
place t key false target owned = record {
  exact = insert key target t.exact;
  prefix = remove key t.prefix;
  config_keys = own owned key t.config_keys;
}

-- `bind_owned` behind its three checks.
unfoldable pub bind_key : DynamicRoutes → Key → Bool → Text → Bool → Result Refusal DynamicRoutes
bind_key t key by_prefix target owned =
    if not (is_bound t key) && leb max_bindings (len t)
    then err table_full
    else ok (place t key by_prefix target owned)

unfoldable pub bind_owned : DynamicRoutes → Text → Text → Text → Bool → Result Refusal DynamicRoutes
unfolding bind_key base_key
bind_owned t method path target owned = elim (normalize_method method) [
  | none ↦ err invalid_method
  | some m ↦ elim (normalize_route_path path) [
    | none ↦ err invalid_path
    | some p ↦
        if valid_module_name target
        then bind_key t (base_key m p) (is_prefix_path p) target owned
        else err invalid_module
  ]
]

unfoldable pub bind : DynamicRoutes → Text → Text → Text → Result Refusal DynamicRoutes
unfolding bind_owned
bind t method path target = bind_owned t method path target false

-- `unbind` behind its checks.
abbrev pub drop_key : DynamicRoutes → Key → DynamicRoutes
drop_key t key = record {
  exact = remove key t.exact;
  prefix = remove key t.prefix;
  config_keys = without key t.config_keys;
}

unfoldable pub unbind : DynamicRoutes → Text → Text → DynamicRoutes
unfolding base_key
unbind t method path = elim (normalize_method method) [
  | none ↦ t
  | some m ↦ elim (normalize_route_path path) [ none ↦ t | some p ↦ drop_key t (base_key m p) ]
]

abbrev pub is_for : Text → Key × Text → Bool
is_for target (k, v) = list_beq v target

unfoldable pub unbind_module : DynamicRoutes → Text → DynamicRoutes × ℕ
unbind_module t target =
    let exact = select (λ e. not (is_for target e)) t.exact in
    let prefix = select (λ e. not (is_for target e)) t.prefix in
    let next : DynamicRoutes = record {
      exact = exact;
      prefix = prefix;
      config_keys =
          select (λ k. is_some (get k exact) || some_of (λ e. pair_beq e.0 k) prefix) t.config_keys;
    } in
    (next, len t - len next)

-- The removal of the keys that the old configuration owned.
unfoldable pub drop_stale : List Key → DynamicRoutes → DynamicRoutes
drop_stale [] t = t
drop_stale (k ∷ ks) t =
    drop_stale ks (record t { exact = remove k t.exact; prefix = remove k t.prefix })

-- The table after an attempt: a refused binding changes nothing.
abbrev pub or_keep : DynamicRoutes → Result Refusal DynamicRoutes → DynamicRoutes
or_keep t (ok next) = next
or_keep t (err e) = t

-- The bindings of the new configuration, an entry that is refused being skipped.
unfoldable pub overlay : List DynamicRoute → DynamicRoutes → DynamicRoutes
unfolding bind_owned
overlay [] t = t
overlay (r ∷ rs) t = overlay rs (or_keep t (bind_owned t r.method r.path r.target true))

unfoldable pub reconcile : DynamicRoutes → List DynamicRoute → DynamicRoutes
unfolding drop_stale overlay
reconcile t cfg = overlay cfg (drop_stale t.config_keys (record t { config_keys = [] }))
