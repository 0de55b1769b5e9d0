-- ===== src/Tests/Dynamic.antt =====
-- The table of dynamic bindings at concrete inputs.
use openrusty.Prelude.{
  ℕ, zero, suc, ◌+◌, ◌≤◌, ◌≡◌, refl, subst, true, false, none, some, List, [], ◌∷◌, arith,
}
use openrusty.Prelude.Assoc.{get, remove, insert}
use openrusty.Prelude.Result.{ok}
use openrusty.Prelude.Text.{Text, codes, uppercase, to_upper, byte_len}
use openrusty.Dynamic.{DynamicRoute, normalize_method, normalize_route_path, valid_module_name}
use openrusty.Dynamic.Table.{
  Key, DynamicRoutes, new, max_bindings, bind_owned, lookup, reconcile, unbind_module, covers,
  base_key, is_prefix_path, or_keep,
}
use openrusty.Dynamic.Valid.{IsValid}
use openrusty.Dynamic.Steps.{Op, serve_all, serve_all-IsValid, new-IsValid}
use openrusty.Dynamic.Binding.{binding}
use openrusty.Dynamic.Lookup.{lookup_best, lookup-bind_owned}
use openrusty.Dynamic.Reload.{binding-reconcile}
use openrusty.Dynamic.Enforced.{reconcile_enforces, reconcile_full}

abbrev rule : Text → Text → Text → DynamicRoute
rule method path target = record { method = method; path = path; target = target }

abbrev orders : DynamicRoute
orders = rule (codes "get") (codes "/api/*") (codes "orders")

abbrev ping : DynamicRoute
ping = rule (codes "GET") (codes "/ping") (codes "ping")

-- A binding of the configuration, and one made at run time.
abbrev table : DynamicRoutes
table = record {
  exact = ((codes "GET", codes "/ping"), codes "ping") ∷ [];
  prefix = ((codes "GET", codes "/api"), codes "orders") ∷ [];
  config_keys = (codes "GET", codes "/api") ∷ [];
}

abbrev history : List Op
history = Op.reload (orders ∷ []) ∷ Op.add (codes " GET") (codes "/ping") (codes "ping") ∷ []

history_run : serve_all history new ≡ table
unfolding serve_all reconcile to_upper normalize_method normalize_route_path valid_module_name
    openrusty.Dynamic.Table.bind get insert remove openrusty.Dynamic.Table.sort_by_weight
history_run = refl

serve_all-IsValid_example : IsValid (serve_all history new)
serve_all-IsValid_example = serve_all-IsValid history new new-IsValid

table-IsValid : IsValid table
unfolding get
table-IsValid = record {
  exact_keys = (refl, tt);
  prefix_keys = (refl, tt);
  apart = (refl, tt);
  ordered = (tt, tt);
  room = omega arith;
  owned = (refl, tt);
}

-- A second prefix, below the first.
abbrev carts : DynamicRoutes
carts = record {
  exact = table.exact;
  prefix =
      ((codes "GET", codes "/api/carts"), codes "carts")
      ∷ ((codes "GET", codes "/api"), codes "orders")
      ∷ [];
  config_keys = table.config_keys;
}

carts_bound : bind_owned table (codes "GET") (codes "/api/carts/*") (codes "carts") false ≡ ok carts
unfolding bind_owned to_upper normalize_method normalize_route_path valid_module_name get insert
    remove openrusty.Dynamic.Table.sort_by_weight
carts_bound = refl

lookup-bind_owned_example : lookup carts (codes "get") (codes "/api/carts") ≡ some (codes "carts")
unfolding to_upper normalize_method normalize_route_path base_key
lookup-bind_owned_example =
    lookup-bind_owned table carts (codes "GET") (codes "/api/carts/*") (codes "carts") false
      (codes "GET", codes "/api/carts") (codes "get") table-IsValid carts_bound refl refl

lookup_best_example :
    (p : Text) × (v : Text) × (lookup table (codes "get") (codes "/api/x") ≡ some v)
    × (binding table (uppercase (codes "get"), p) ≡ some (true, v))
    × (covers p (codes "/api/x") ≡ true)
    × (byte_len (codes "/api") ≤ byte_len p)
unfolding to_upper get covers
lookup_best_example =
    lookup_best table (codes "get") (codes "/api/x") (codes "/api") (codes "orders") table-IsValid
      refl refl refl

-- A reload with no binding drops the one of the configuration.
binding-reconcile_example : binding (reconcile table []) (codes "GET", codes "/api") ≡ none
binding-reconcile_example =
    binding-reconcile table [] (codes "GET", codes "/api") table-IsValid refl

reconcile_enforces_example :
    binding (reconcile table (ping ∷ orders ∷ [])) (codes "GET", codes "/ping")
    ≡ some (false, codes "ping")
unfolding to_upper normalize_method normalize_route_path base_key valid_module_name
reconcile_enforces_example =
    reconcile_enforces table (ping ∷ orders ∷ []) 0 ping (codes "GET", codes "/ping") table-IsValid
      (omega arith) refl refl refl refl

-- Bindings of as many paths of one letter.
abbrev letters : ℕ → List (Key × Text)
letters zero = []
letters (suc n) = ((codes "GET", b'/' ∷ (256 + n) ∷ []), codes "m") ∷ letters n

abbrev crowded : DynamicRoutes
crowded = record { exact = letters 4096; prefix = []; config_keys = [] }

reconcile_full_example : reconcile crowded (ping ∷ []) ≡ crowded
unfolding to_upper normalize_method normalize_route_path base_key get
reconcile_full_example = reconcile_full crowded (ping ∷ []) refl (omega arith) (
  (λ key named.
      let same : (codes "GET", codes "/ping") ≡ key = cc in
      subst (λ k. binding crowded k ≡ none) same refl),
  tt,
)
