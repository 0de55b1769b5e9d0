-- ===== src/Dynamic/Lookup.antt =====
-- What `lookup` of crates/openrusty-server/src/dynamic_routes.rs finds in a valid table.
use openrusty.Prelude.{
  ◌≤◌, ◌≡◌, ◌∙◌, sym, subst, ap, Bool, true, false, ◌&&◌, ◌⊎◌, none, some, List, [], ◌∷◌, ◌++◌,
  arith, Bool-cases, Option-cases, inl, inr, pair_eq, list_eq, nat_eq, pair_beq, pair_beq_iff,
  list_beq, list_beq_iff,
}
use openrusty.Prelude.Assoc.{get}
use openrusty.Prelude.Maps.{Unique, All-get}
use openrusty.Prelude.Text.{
  Text, uppercase, strip_prefix, strip_prefix-some, strip_prefix_self, byte_len, byte_len-append,
  nil_of_byte_len,
}
use mathlib.Core.List.{append-nil}
use openrusty.Prelude.Result.{ok}
use openrusty.Dynamic.Table.{
  Key, DynamicRoutes, weight, covers, find_prefix, lookup, bind_owned, is_prefix_path,
}
use openrusty.Dynamic.Order.{IsOrdered}
use openrusty.Dynamic.Valid.{IsValid}
use openrusty.Dynamic.Steps.{Accepted, bind_owned-IsValid}
use openrusty.Dynamic.Binding.{binding, binding-bind_owned, key_of}

find_prefix_sound :
    (m path : Text) (es : List (Key × Text)) {v : Text}
    → Unique es
    → find_prefix m path es ≡ some v
    → (p : Text) × (get (m, p) es ≡ some v) × (covers p path ≡ true)
unfolding find_prefix get
find_prefix_sound m path [] u h = cc
find_prefix_sound m path (((n, p), w) ∷ es) {v} u h =
    elim (Bool-cases (list_beq n m && covers p path)) [
      | inl hit ↦ (
        p,
        ground (arith, pair_beq_iff (n, p) (m, p), list_beq_iff n m, list_beq_iff p p),
        ground arith,
      )
      | inr miss ↦
          let (q, at, cover) = find_prefix_sound m path es {v = v} u.1 (ground arith) in
          (q, ground (arith, pair_beq_iff (n, p) (m, q), ap (λ (k : Key). get k es)), cover)
    ]

-- The first prefix that covers the path is as long as each that does.
find_prefix_best :
    (m path q : Text) (es : List (Key × Text)) {w : Text}
    → Unique es
    → IsOrdered es
    → get (m, q) es ≡ some w
    → covers q path ≡ true
    → (p : Text) × (v : Text) × (find_prefix m path es ≡ some v)
      × (get (m, p) es ≡ some v)
      × (covers p path ≡ true)
      × (byte_len q ≤ byte_len p)
unfolding find_prefix get
find_prefix_best m path q [] u o at cover = cc
find_prefix_best m path q (((n, p), v) ∷ es) {w} u o at cover =
    elim (Bool-cases (list_beq n m && covers p path)) [
      | inl hit ↦ (
        p,
        v,
        ground arith,
        ground (arith, pair_beq_iff (n, p) (m, p), list_beq_iff n m, list_beq_iff p p),
        ground arith,
        elim (Bool-cases (pair_beq (n, p) (m, q))) [
          | inl same ↦
              ground (arith, ap (λ (k : Key). byte_len k.1) ((pair_beq_iff (n, p) (m, q)).0 same))
          | inr other ↦ omega (
            arith,
            All-get (λ f. weight f.0 ≤ weight (n, p)) (m, q) es {v = w} o.0 (ground arith),
            ap byte_len ((list_beq_iff n m).0 (ground arith)),
          )
        ],
      )
      | inr miss ↦
          let other : pair_beq (n, p) (m, q) ≡ false = ground (arith, list_beq_iff p q) in
          let (r, x, found, there, over, long) =
            find_prefix_best m path q es {w = w} u.1 o.1 (ground arith) cover in
          (
            r,
            x,
            ground arith,
            ground (arith, pair_beq_iff (n, p) (m, r), ap (λ (k : Key). get k es)),
            over,
            long,
          )
    ]

-- What `lookup` gives is bound to the method, at the path itself or at a prefix that covers it.
pub lookup_sound :
    (t : DynamicRoutes) (method path v : Text)
    → IsValid t
    → lookup t method path ≡ some v
    → (binding t (uppercase method, path) ≡ some (false, v))
      ⊎ ((p : Text) × (binding t (uppercase method, p) ≡ some (true, v)) × (covers p path ≡ true))
unfolding lookup
lookup_sound t method path v valid h =
    let m = uppercase method in
    elim (Option-cases (get (m, path) t.exact)) [
      | inr (w, there) ↦ inl (ground arith)
      | inl absent ↦
          let (p, at, cover) =
            find_prefix_sound m path t.prefix {v = v} valid.prefix_keys (ground arith) in
          let free = All-get (λ e. get e.0 t.exact ≡ none) (m, p) t.prefix {v = v} valid.apart at in
          inr (p, ground (arith, at, free), cover)
    ]

-- A path that is not bound itself, and that a prefix of the method covers, goes to the module of a
-- prefix that covers it and is as long as each that does.
pub lookup_best :
    (t : DynamicRoutes) (method path q w : Text)
    → IsValid t
    → binding t (uppercase method, q) ≡ some (true, w)
    → covers q path ≡ true
    → get (uppercase method, path) t.exact ≡ none
    → (p : Text) × (v : Text) × (lookup t method path ≡ some v)
      × (binding t (uppercase method, p) ≡ some (true, v))
      × (covers p path ≡ true)
      × (byte_len q ≤ byte_len p)
unfolding lookup
lookup_best t method path q w valid at cover absent =
    let m = uppercase method in
    let (p, v, found, there, over, long) =
      find_prefix_best m path q t.prefix {w = w} valid.prefix_keys valid.ordered (ground arith)
        cover in
    let free = All-get (λ e. get e.0 t.exact ≡ none) (m, p) t.prefix {v = v} valid.apart there in
    (p, v, ground arith, ground (arith, there, free), over, long)

covers_self : (p : Text) → covers p p ≡ true
unfolding covers
covers_self p = ground (arith, strip_prefix_self p)

-- A prefix that covers a path and is no shorter is the path.
covers_long : (p path : Text) → covers p path ≡ true → byte_len path ≤ byte_len p → p ≡ path
unfolding covers
covers_long p path cover long = elim (Option-cases (strip_prefix path p)) [
  | inl absent ↦ absurd (ground arith)
  | inr (r, there) ↦
      let split = strip_prefix-some path p {r = r} there in
      let none_left = nil_of_byte_len r (omega (arith, ap byte_len split, byte_len-append p r)) in
      sym (split ∙ ap (λ x. p ++ x) none_left ∙ append-nil p)
]

-- After an accepted binding, a request with the method, in whatever case, for the path, or for the
-- path that a prefix is for, goes to its module, whatever else is bound.
pub lookup-bind_owned :
    (t u : DynamicRoutes) (method path target : Text) (owned : Bool) (key : Key) (request : Text)
    → IsValid t
    → bind_owned t method path target owned ≡ ok u
    → key_of method path ≡ some key
    → uppercase request ≡ key.0
    → lookup u request key.1 ≡ some target
unfolding lookup
lookup-bind_owned t u method path target owned key request v accepted named same =
    let valid : IsValid u =
      subst (Accepted IsValid) accepted (bind_owned-IsValid t method path target owned v) in
    let bound : binding u (uppercase request, key.1) ≡ some (is_prefix_path path, target) = ground (
      arith,
      ap (λ m. binding u (m, key.1)) same,
      binding-bind_owned t u method path target owned key key v accepted named,
      pair_beq_iff key key,
    ) in
    elim (Option-cases (get (uppercase request, key.1) u.exact)) [
      | inr (w, there) ↦ ground arith
      | inl absent ↦
          let shaped : binding u (uppercase request, key.1) ≡ some (true, target) = ground arith in
          let (p, x, found, at, cover, long) =
            lookup_best u request key.1 key.1 target valid shaped (covers_self key.1) absent in
          let here = covers_long p key.1 cover long in
          found ∙ ground (arith, ap (λ q. binding u (uppercase request, q)) here)
    ]
