-- ===== src/Dynamic/Steps.antt =====
-- Every operation of crates/openrusty-server/src/dynamic_routes.rs keeps the table valid.
use openrusty.Prelude.{
  is_some, ◌≤◌, ◌≡◌, refl, Bool, true, false, not, ◌&&◌, ◌||◌, none, List, [], ◌∷◌, leb, arith,
  All-mono, Bool-cases, Option-cases, inl, inr, pair_eq, list_eq, nat_eq, pair_beq, select,
}
use openrusty.Prelude.Assoc.{get, remove}
use openrusty.Prelude.Maps.{select-Unique, length-select, All-select, get-select-none}
use openrusty.Prelude.Result.{Result, ok, err}
use openrusty.Prelude.Text.{Text, some_of}
use openrusty.Dynamic.{DynamicRoute, normalize_method, normalize_route_path, valid_module_name}
use openrusty.Dynamic.Table.{
  Key, DynamicRoutes, len, max_bindings, weight, is_bound, is_for, bind_key, bind_owned, bind,
  unbind, unbind_module, drop_stale, overlay, reconcile, base_key, is_prefix_path, Refusal, or_keep,
  new,
}
use openrusty.Dynamic.Order.{IsOrdered}
use openrusty.Dynamic.Valid.{IsValid, place-IsValid, drop_key-IsValid}

-- What holds of the table that an accepted binding gives.
abbrev pub Accepted : (DynamicRoutes → Type 0) → Result Refusal DynamicRoutes → Type 0
Accepted P (ok t) = P t
Accepted P (err e) = Unit

bind_key-IsValid :
    (t : DynamicRoutes) (key : Key) (by_prefix : Bool) (target : Text) (owned : Bool)
    → IsValid t
    → Accepted IsValid (bind_key t key by_prefix target owned)
unfolding bind_key
bind_key-IsValid t key by_prefix target owned v =
    elim (Bool-cases (not (is_bound t key) && leb max_bindings (len t))) [
      | inl full ↦ rw (bind_key, full) tt
      | inr free ↦ rw (bind_key, free) (place-IsValid t key by_prefix target owned v free)
    ]

pub bind_owned-IsValid :
    (t : DynamicRoutes) (method path target : Text) (owned : Bool)
    → IsValid t
    → Accepted IsValid (bind_owned t method path target owned)
unfolding bind_owned
bind_owned-IsValid t method path target owned v = elim (Option-cases (normalize_method method)) [
  | inl bad ↦ rw (bind_owned, bad) tt
  | inr (m, good) ↦ elim (Option-cases (normalize_route_path path)) [
    | inl bad ↦ rw (bind_owned, good, bad) tt
    | inr (p, fine) ↦ elim (Bool-cases (valid_module_name target)) [
      | inr bad ↦ rw (bind_owned, good, fine, bad) tt
      | inl named ↦
          rw (bind_owned, good, fine, named)
            (bind_key-IsValid t (base_key m p) (is_prefix_path p) target owned v)
    ]
  ]
]

unbind-IsValid :
    (t : DynamicRoutes) (method path : Text) → IsValid t → IsValid (unbind t method path)
unfolding unbind
unbind-IsValid t method path v = elim (Option-cases (normalize_method method)) [
  | inl bad ↦ rw (unbind, bad) v
  | inr (m, good) ↦ elim (Option-cases (normalize_route_path path)) [
    | inl bad ↦ rw (unbind, good, bad) v
    | inr (p, fine) ↦ rw (unbind, good, fine) (drop_key-IsValid t (base_key m p) v)
  ]
]

select-IsOrdered :
    (p : Key × Text → Bool) (es : List (Key × Text)) → IsOrdered es → IsOrdered (select p es)
select-IsOrdered p [] o = tt
select-IsOrdered p (e ∷ es) o = elim (Bool-cases (p e)) [
  | inl kept ↦ rw kept (
    All-mono (λ f. (weight f.0 ≤ weight e.0) × (p f ≡ true)) (λ f. weight f.0 ≤ weight e.0)
        (λ f q. q.0) (select p es) (All-select (λ f. weight f.0 ≤ weight e.0) p es o.0),
    select-IsOrdered p es o.1,
  )
  | inr gone ↦ rw gone (select-IsOrdered p es o.1)
]

some_of-get :
    (k : Key) (es : List (Key × Text)) → some_of (λ e. pair_beq e.0 k) es ≡ is_some (get k es)
unfolding get
some_of-get k [] = refl
some_of-get k (e ∷ es) = ground (arith, some_of-get k es)

unbind_module-IsValid :
    (t : DynamicRoutes) (target : Text) → IsValid t → IsValid (unbind_module t target).0
unfolding unbind_module
unbind_module-IsValid t target v =
    let kept = λ (e : Key × Text). not (is_for target e) in
    record {
      exact_keys = select-Unique kept t.exact v.exact_keys;
      prefix_keys = select-Unique kept t.prefix v.prefix_keys;
      apart =
          All-mono (λ e. (get e.0 t.exact ≡ none) × (kept e ≡ true))
            (λ e. get e.0 (select kept t.exact) ≡ none)
            (λ e q. get-select-none kept e.0 t.exact q.0) (select kept t.prefix)
            (All-select (λ e. get e.0 t.exact ≡ none) kept t.prefix v.apart);
      ordered = select-IsOrdered kept t.prefix v.ordered;
      room = omega (arith, length-select kept t.exact, length-select kept t.prefix, v.room);
      owned =
          All-mono
            (λ k.
              (is_bound t k ≡ true)
              × ((is_some (get k (select kept t.exact))
                    || some_of (λ e. pair_beq e.0 k) (select kept t.prefix))
                  ≡ true))
            (λ k. is_bound (unbind_module t target).0 k ≡ true)
            (λ k q. ground (arith, q, some_of-get k (select kept t.prefix)))
            (unbind_module t target).0.config_keys
            (All-select (λ k. is_bound t k ≡ true)
              (λ k.
                is_some (get k (select kept t.exact))
                || some_of (λ e. pair_beq e.0 k) (select kept t.prefix))
              t.config_keys v.owned);
    }

-- A table that owns no key, without one of its keys.
pub drop_stale-IsValid :
    (ks : List Key) (t : DynamicRoutes) → t.config_keys ≡ [] → IsValid t → IsValid (drop_stale ks t)
unfolding drop_stale
drop_stale-IsValid [] t e v = v
drop_stale-IsValid (k ∷ ks) t e v =
    let dropped = drop_key-IsValid t k v in
    drop_stale-IsValid ks (record t { exact = remove k t.exact; prefix = remove k t.prefix }) e
      (record {
        exact_keys = dropped.exact_keys;
        prefix_keys = dropped.prefix_keys;
        apart = dropped.apart;
        ordered = dropped.ordered;
        room = dropped.room;
        owned = rw e tt;
      })

pub or_keep-IsValid :
    (t : DynamicRoutes) (o : Result Refusal DynamicRoutes)
    → IsValid t
    → Accepted IsValid o
    → IsValid (or_keep t o)
or_keep-IsValid t (ok u) v w = w
or_keep-IsValid t (err e) v w = v

overlay-IsValid : (rs : List DynamicRoute) (t : DynamicRoutes) → IsValid t → IsValid (overlay rs t)
unfolding overlay
overlay-IsValid [] t v = v
overlay-IsValid (r ∷ rs) t v =
    let o = bind_owned t r.method r.path r.target true in
    overlay-IsValid rs (or_keep t o)
      (or_keep-IsValid t o v (bind_owned-IsValid t r.method r.path r.target true v))

-- The table that owns no key.
abbrev pub free_keys : DynamicRoutes → DynamicRoutes
free_keys t = record t { config_keys = [] }

pub free_keys-IsValid : (t : DynamicRoutes) → IsValid t → IsValid (free_keys t)
free_keys-IsValid t v = record {
  exact_keys = v.exact_keys;
  prefix_keys = v.prefix_keys;
  apart = v.apart;
  ordered = v.ordered;
  room = v.room;
  owned = tt;
}

pub reconcile-IsValid :
    (t : DynamicRoutes) (cfg : List DynamicRoute) → IsValid t → IsValid (reconcile t cfg)
unfolding reconcile
reconcile-IsValid t cfg v =
    overlay-IsValid cfg (drop_stale t.config_keys (free_keys t))
      (drop_stale-IsValid t.config_keys (free_keys t) refl (free_keys-IsValid t v))

-- The operations of the registration face and of a reload.
pub data Op : Type 0 where
  add : Text → Text → Text → Op
  drop_path : Text → Text → Op
  drop_module : Text → Op
  reload : List DynamicRoute → Op

unfoldable pub serve : Op → DynamicRoutes → DynamicRoutes
serve (add method path target) t = or_keep t (bind t method path target)
serve (drop_path method path) t = unbind t method path
serve (drop_module target) t = (unbind_module t target).0
serve (reload cfg) t = reconcile t cfg

unfoldable pub serve_all : List Op → DynamicRoutes → DynamicRoutes
unfolding serve
serve_all [] t = t
serve_all (op ∷ ops) t = serve_all ops (serve op t)

serve-IsValid : (op : Op) (t : DynamicRoutes) → IsValid t → IsValid (serve op t)
unfolding serve bind
serve-IsValid (add method path target) t v =
    or_keep-IsValid t (bind t method path target) v
      (bind_owned-IsValid t method path target false v)
serve-IsValid (drop_path method path) t v = unbind-IsValid t method path v
serve-IsValid (drop_module target) t v = unbind_module-IsValid t target v
serve-IsValid (reload cfg) t v = reconcile-IsValid t cfg v

-- From a valid table, such as the empty one, any sequence of operations ends in a valid table: no key
-- is bound twice, be it as a path or as a prefix, the heavier prefixes stand first, there are at most
-- 4096 bindings, and every key that the configuration owns is bound.
pub serve_all-IsValid : (ops : List Op) (t : DynamicRoutes) → IsValid t → IsValid (serve_all ops t)
unfolding serve_all
serve_all-IsValid [] t v = v
serve_all-IsValid (op ∷ ops) t v = serve_all-IsValid ops (serve op t) (serve-IsValid op t v)

pub new-IsValid : IsValid new
new-IsValid = omega arith
