-- ===== src/Kube/Merge/Labels.antt =====
-- Which routes a conflict of `merge` of crates/openrusty-k8s/src/render/mod.rs names.
use openrusty.Prelude.{
  ◌≡◌, refl, sym, ap, subst, ◌<◌, length, ◌∙◌, ℕ, zero, suc, ◌+◌, Option, none, some, List, [], ◌∷◌,
  ◌++◌, arith,
}
use openrusty.Prelude.Assoc.{get}
use openrusty.Prelude.Result.{Result, ok, err, ◌>>=◌}
use openrusty.Routing.{RouteConfig}
use openrusty.Kube.Merge.{
  RouteKey, key_beq_iff, key_eq, key_of, Origin, Label, Conflict, Seen, unless_seen, check, merge,
}

-- The key of the route that a label names.
abbrev key_in : List RouteConfig → ℕ → Option RouteKey
key_in [] i = none
key_in (route ∷ routes) zero = some (key_of route)
key_in (route ∷ routes) (suc i) = key_in routes i

abbrev pub key_at : List RouteConfig → List RouteConfig → Label → Option RouteKey
key_at s r (Origin.of_static, i) = key_in s i
key_at s r (Origin.of_rendered, i) = key_in r i

-- The place of a label among the static routes and then the rendered ones.
abbrev pub place : List RouteConfig → Label → ℕ
place s (Origin.of_static, i) = i
place s (Origin.of_rendered, i) = length s + i

-- A table of keys has the keys of some routes from an index on.
abbrev Placed : (ℕ → Option RouteKey) → ℕ → List RouteConfig → Type 0
Placed table i routes = (j : ℕ) → table (i + j) ≡ key_in routes j

-- Every entry seen names a route with its key before some place.
abbrev SeenAt : List RouteConfig → (Label → Option RouteKey) → ℕ → Seen → Type 0
SeenAt s table n seen =
    (k : RouteKey) (l : Label) → get k seen ≡ some l → (table l ≡ some k) × (place s l < n)

-- A conflict names two routes with its key, the earlier one first.
abbrev Names : List RouteConfig → (Label → Option RouteKey) → Conflict → Type 0
Names s table c = (table c.a ≡ some c.key) × (table c.b ≡ some c.key) × (place s c.a < place s c.b)

abbrev Located : List RouteConfig → (Label → Option RouteKey) → ℕ → Result Conflict Seen → Type 0
Located s table n (ok seen) = SeenAt s table n seen
Located s table n (err c) = Names s table c

same :
    (c d : Conflict) (e f : Result Conflict (List RouteConfig))
    → e ≡ err c
    → f ≡ err d
    → e ≡ f
    → c ≡ d
same c d e f p q r = cc

seen-cons :
    (s : List RouteConfig) (table : Label → Option RouteKey) (n : ℕ) (seen : Seen) (k : RouteKey)
    (l : Label)
    → table l ≡ some k
    → place s l ≡ n
    → SeenAt s table n seen
    → SeenAt s table (n + 1) ((k, l) ∷ seen)
unfolding get
seen-cons s table n seen k l here at h j m e = ground (arith, key_beq_iff k j, h j m)

round-Located :
    (s : List RouteConfig) (table : Label → Option RouteKey) (n end : ℕ) (k : RouteKey)
    (here : Label) (seen : Seen) (found : Option Label) (rest : Result Conflict Seen)
    → get k seen ≡ found
    → SeenAt s table n seen
    → table here ≡ some k
    → place s here ≡ n
    → Located s table end rest
    → Located s table end (unless_seen k here found rest)
round-Located s table n end k here seen none rest e h at spot p = p
round-Located s table n end k here seen (some there) rest e h at spot p =
    let (first, before) = h k there e in
    (first, at, subst (λ m. place s there < m) (sym spot) before)

check-Located :
    (s : List RouteConfig) (table : Label → Option RouteKey) (origin : Origin) (i : ℕ)
    (routes : List RouteConfig) (seen : Seen)
    → ((j : ℕ) → place s (origin, j) ≡ place s (origin, 0) + j)
    → Placed (λ j. table (origin, j)) i routes
    → SeenAt s table (place s (origin, i)) seen
    → Located s table (place s (origin, i) + length routes) (check origin i routes seen)
check-Located s table origin i [] seen spots placed h =
    λ k l e. let (at, before) = h k l e in (at, omega arith)
check-Located s table origin i (route ∷ routes) seen spots placed h =
    round-Located s table (place s (origin, i)) _ (key_of route) (origin, i) seen
      (get (key_of route) seen) _ refl h here refl
      (subst
        (λ n. Located s table n (check origin (i + 1) routes ((key_of route, (origin, i)) ∷ seen)))
        along
        (check-Located s table origin (i + 1) routes ((key_of route, (origin, i)) ∷ seen) spots
          (λ j. ap (λ n. table (origin, n)) (shift j) ∙ placed (suc j))
          (subst (λ n. SeenAt s table n ((key_of route, (origin, i)) ∷ seen)) next
            (seen-cons s table (place s (origin, i)) seen (key_of route) (origin, i) here refl h))))
  where
    here : table (origin, i) ≡ some (key_of route)
    here = ap (λ n. table (origin, n)) (omega arith) ∙ placed 0

    shift : (j : ℕ) → i + 1 + j ≡ i + suc j
    shift j = omega arith

    next : place s (origin, i) + 1 ≡ place s (origin, i + 1)
    next = omega (arith, spots i, spots (i + 1))

    along : place s (origin, i + 1) + length routes ≡ place s (origin, i) + length (route ∷ routes)
    along = omega (arith, spots i, spots (i + 1))

then-Located :
    (s r : List RouteConfig) (table : Label → Option RouteKey) (n : ℕ)
    (second : Result Conflict Seen) (c : Conflict)
    → Located s table n second
    → (second >>= λ _. ok (s ++ r)) ≡ err c
    → Names s table c
then-Located s r table n (ok seen) c p e = absurd cc
then-Located s r table n (err c') c p e = subst (Names s table) (same c' c _ _ refl refl e) p

both-Located :
    (s r : List RouteConfig) (first : Result Conflict Seen) (c : Conflict)
    → Located s (key_at s r) (length s) first
    → (first >>= λ seen. check Origin.of_rendered 0 r seen >>= λ _. ok (s ++ r)) ≡ err c
    → Names s (key_at s r) c
both-Located s r (ok seen) c p e =
    then-Located s r (key_at s r) (length s + 0 + length r) (check Origin.of_rendered 0 r seen) c
      (check-Located s (key_at s r) Origin.of_rendered 0 r seen (λ j. omega arith)
        (λ j. ap (key_in r) (omega arith))
        (λ k l h. let (at, before) = p k l h in (at, omega arith)))
      e
both-Located s r (err c') c p e = subst (Names s (key_at s r)) (same c' c _ _ refl refl e) p

-- A conflict that `merge` reports is one: its labels name two routes that have the reported key, the first
-- of them before the second among the static and then the rendered routes.
pub merge_conflict :
    (static_routes rendered_routes : List RouteConfig) (c : Conflict)
    → merge static_routes rendered_routes ≡ err c
    → (key_at static_routes rendered_routes c.a ≡ some c.key)
      × (key_at static_routes rendered_routes c.b ≡ some c.key)
      × (place static_routes c.a < place static_routes c.b)
unfolding merge get
merge_conflict s r c e =
    both-Located s r (check Origin.of_static 0 s []) c
      (subst (λ n. Located s (key_at s r) n (check Origin.of_static 0 s [])) none_before
        (check-Located s (key_at s r) Origin.of_static 0 s [] (λ j. omega arith)
          (λ j. ap (key_in s) (omega arith)) (λ k l h. absurd cc)))
      e
  where
    none_before : 0 + length s ≡ length s
    none_before = omega arith
