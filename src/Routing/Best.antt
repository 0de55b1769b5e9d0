-- ===== src/Routing/Best.antt =====
-- The route that `match_route` of crates/openrusty-server/src/pipeline/mod.rs picks among all routes.
use openrusty.Prelude.{
  is_some, ℕ, ◌≡◌, ◌⊎◌, ap, inl, inr, Bool, true, false, Option, none, some, List, arith, All,
  select, get_elem?,
}
use openrusty.Prelude.Text.{Text}
use openrusty.Routing.{
  RouteConfig, Candidate, path_in_class, match_route, host_matches, enumerate, in_host_class,
  in_any_class,
}
use openrusty.Routing.Precedence.{fits}
use openrusty.Routing.Class.{Wins, path_in_class_lem}
use openrusty.Routing.Indexed.{
  false-true, All-select, select-Ascending, enumerate-Ascending, Indexed, enumerate-Indexed,
  All-covers,
}

-- A route fits a request: the host does, if it wants one, and the path does.
abbrev pub Matches : Option Text → Text → RouteConfig → Type 0
Matches host path r = (host_matches r.host host ≡ true) × (fits path r ≡ true)

-- A route with a host goes before one without; within a class the path decides.
abbrev pub Outranks : Candidate → Candidate → Type 0
Outranks c d =
    ((is_some c.1.host ≡ true) × (is_some d.1.host ≡ false))
    ⊎ ((is_some c.1.host ≡ is_some d.1.host) × Wins c d)

-- Both classes of a route table, as `path_in_class` sees them.
class_lem :
    (routes : List RouteConfig) (path : Text) (p : Candidate → Bool)
    → ((path_in_class (select p (enumerate 0 routes)) path ≡ none)
        × All (λ d. fits path d.1 ≡ false) (select p (enumerate 0 routes)))
      ⊎ ((c : Candidate) × (path_in_class (select p (enumerate 0 routes)) path ≡ some c.0)
          × (Indexed routes c × (p c ≡ true))
          × (fits path c.1 ≡ true)
          × All (λ d. fits path d.1 ≡ true → Wins c d) (select p (enumerate 0 routes)))
class_lem routes path p =
    path_in_class_lem (λ c. Indexed routes c × (p c ≡ true)) path (select p (enumerate 0 routes))
      (All-select (Indexed routes) p (enumerate 0 routes)
        (enumerate-Indexed routes 0 routes (λ j. ap (get_elem? routes) (omega arith))))
      (select-Ascending p (enumerate 0 routes) (enumerate-Ascending 0 routes))

host_class :
    (host : Option Text) (k : ℕ) (q : RouteConfig)
    → host_matches q.host host ≡ true
    → (in_host_class host (k, q) ≡ true) ⊎ (in_any_class (k, q) ≡ true)
host_class host k q h = ground arith

no_fit :
    (routes : List RouteConfig) (path : Text) (p : Candidate → Bool)
    → All (λ d. fits path d.1 ≡ false) (select p (enumerate 0 routes))
    → (j : ℕ) (q : RouteConfig) → get_elem? routes j ≡ some q
    → p (j, q) ≡ true
    → ¬ (fits path q ≡ true)
no_fit routes path p none_fits j q e t ok =
    false-true
      (All-covers (λ d. fits path d.1 ≡ false) p 0 routes none_fits j j {q = q} (omega arith) e t)
      ok

-- What an answer says of every route.
abbrev pub Best : List RouteConfig → Option Text → Text → Option ℕ → Type 0
Best routes host path none =
    (j : ℕ) (q : RouteConfig) → get_elem? routes j ≡ some q → ¬ Matches host path q
Best routes host path (some i) =
    (r : RouteConfig) × (get_elem? routes i ≡ some r)
    × Matches host path r
    × ((j : ℕ) (q : RouteConfig)
        → get_elem? routes j ≡ some q
        → Matches host path q
        → Outranks (i, r) (j, q))

from_host :
    (routes : List RouteConfig) (host : Option Text) (path : Text) (c : Candidate)
    → Indexed routes c
    → in_host_class host c ≡ true
    → fits path c.1 ≡ true
    → All (λ d. fits path d.1 ≡ true → Wins c d) (select (in_host_class host) (enumerate 0 routes))
    → Best routes host path (some c.0)
from_host routes host path c at class ok wins = (
  c.1,
  at,
  (ground arith, ok),
  λ j q e m. elim (host_class host j q m.0) [
    | inl with_host ↦ inr (
      ground arith,
      All-covers (λ d. fits path d.1 ≡ true → Wins c d) (in_host_class host) 0 routes wins j j
          {q = q} (omega arith) e with_host m.1,
    )
    | inr any ↦ inl (ground arith, ground arith)
  ],
)

from_any :
    (routes : List RouteConfig) (host : Option Text) (path : Text) (c : Candidate)
    → Indexed routes c
    → in_any_class c ≡ true
    → fits path c.1 ≡ true
    → All (λ d. fits path d.1 ≡ false) (select (in_host_class host) (enumerate 0 routes))
    → All (λ d. fits path d.1 ≡ true → Wins c d) (select in_any_class (enumerate 0 routes))
    → Best routes host path (some c.0)
unfolding host_matches
from_any routes host path c at class ok none_host wins = (
  c.1,
  at,
  (ground arith, ok),
  λ j q e m. elim (host_class host j q m.0) [
    | inl with_host ↦ absurd (no_fit routes path (in_host_class host) none_host j q e with_host m.1)
    | inr any ↦ inr (
      ground arith,
      All-covers (λ d. fits path d.1 ≡ true → Wins c d) in_any_class 0 routes wins j j {q = q}
          (omega arith) e any m.1,
    )
  ],
)

-- If no route is chosen, then no route fits the request with its host and path. Else the chosen index is one
-- of a route, which fits and outranks each route that fits: a route for the host goes before one for any
-- host, an exact path before a prefix, the longer prefix before the shorter, and the first of two alike.
pub match_route-Best :
    (routes : List RouteConfig) (host : Option Text) (path : Text)
    → Best routes host path (match_route routes host path)
unfolding match_route
match_route-Best routes host path = elim (class_lem routes path (in_host_class host)) [
  | inr (c, e, (at, class), ok, wins) ↦
      rw (match_route, e) (from_host routes host path c at class ok wins)
  | inl (e, none_host) ↦ elim (class_lem routes path in_any_class) [
    | inr (c, f, (at, class), ok, wins) ↦
        rw (match_route, e, f) (from_any routes host path c at class ok none_host wins)
    | inl (f, none_any) ↦
        rw (match_route, e, f)
          (λ j q at m. elim (host_class host j q m.0) [
            | inl with_host ↦ no_fit routes path (in_host_class host) none_host j q at with_host m.1
            | inr any ↦ no_fit routes path in_any_class none_any j q at any m.1
          ])
  ]
]
