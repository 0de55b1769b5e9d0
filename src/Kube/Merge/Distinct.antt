-- ===== src/Kube/Merge/Distinct.antt =====
-- When `merge` of crates/openrusty-k8s/src/render/mod.rs finds a conflict, and what it then names.
use openrusty.Prelude.{
  ◌≡◌, ◌↔◌, refl, sym, ap, subst, ℕ, ◌+◌, Bool, true, false, Option, none, some, List, [], ◌∷◌,
  ◌++◌, map, contains, NoRepeat, arith,
}
use openrusty.Prelude.Assoc.{get}
use openrusty.Prelude.Result.{Result, ok, err, ◌>>=◌, >>=-eq-ok, ok_inj}
use openrusty.Routing.{RouteConfig}
use openrusty.Kube.Merge.{
  RouteKey, key_eq, key_of, Origin, Label, Conflict, Seen, unless_seen, check, merge,
}

abbrev keys : Seen → List RouteKey
keys seen = map (λ entry. entry.0) seen

contains_of_none : (seen : Seen) (k : RouteKey) → get k seen ≡ none → contains (keys seen) k ≡ false
unfolding get
contains_of_none [] k e = refl
contains_of_none ((j, l) ∷ seen) k e = ground (arith, contains_of_none seen k)

contains_of_some :
    (seen : Seen) (k : RouteKey) (l : Label) → get k seen ≡ some l → contains (keys seen) k ≡ true
unfolding get
contains_of_some [] k l e = cc
contains_of_some ((j, m) ∷ seen) k l e = ground (arith, contains_of_some seen k l)

-- What is left to hold of the later routes after a list has passed, or that a key repeated.
abbrev Passed : List RouteKey → List RouteConfig → List RouteConfig → Result Conflict Seen → Type 0
Passed before routes more (ok seen) =
    NoRepeat before (map key_of (routes ++ more)) ↔ NoRepeat (keys seen) (map key_of more)
Passed before routes more (err c) = NoRepeat before (map key_of (routes ++ more)) → ⊥

-- One round: a key that is new, or one that repeats.
round-Passed :
    (here : Label) (seen : Seen) (route : RouteConfig) (routes more : List RouteConfig)
    (found : Option Label) (rest : Result Conflict Seen)
    → get (key_of route) seen ≡ found
    → Passed (key_of route ∷ keys seen) routes more rest
    → Passed (keys seen) (route ∷ routes) more (unless_seen (key_of route) here found rest)
round-Passed here seen route routes more none (ok seen') e p =
    (λ h. p.0 h.1, λ h. (contains_of_none seen (key_of route) e, p.1 h))
round-Passed here seen route routes more none (err c) e p = λ h. p h.1
round-Passed here seen route routes more (some there) rest e p =
    λ h. clash (contains_of_some seen (key_of route) there e) h.0
  where
    clash : {b : Bool} → b ≡ true → b ≡ false → ⊥
    clash e f = cc

check-Passed :
    (origin : Origin) (i : ℕ) (routes more : List RouteConfig) (seen : Seen)
    → Passed (keys seen) routes more (check origin i routes seen)
check-Passed origin i [] more seen = (λ h. h, λ h. h)
check-Passed origin i (route ∷ routes) more seen =
    round-Passed (origin, i) seen route routes more (get (key_of route) seen) _ refl
      (check-Passed origin (i + 1) routes more ((key_of route, (origin, i)) ∷ seen))

-- The lists in turn: what a second list that ends with a result, or a conflict, makes of a first.
then_Passed :
    (s r : List RouteConfig) (second : Result Conflict Seen) (before : List RouteKey)
    → Passed before r [] second
    → ((second >>= λ _. ok (s ++ r)) ≡ ok (s ++ r)) ↔ NoRepeat before (map key_of (r ++ []))
then_Passed s r (ok seen) before p = (λ e. p.1 tt, λ h. refl)
then_Passed s r (err c) before p = (λ e. absurd cc, λ h. absurd (p h))

append_nil {ℓ} : {A : Type ℓ} (xs : List A) → xs ++ [] ≡ xs
append_nil [] = refl
append_nil (x ∷ xs) = ap (λ ys. x ∷ ys) (append_nil xs)

both_Passed :
    (s r : List RouteConfig) (first : Result Conflict Seen)
    → Passed [] s r first
    → ((first >>= λ seen. check Origin.of_rendered 0 r seen >>= λ _. ok (s ++ r)) ≡ ok (s ++ r))
      ↔ NoRepeat [] (map key_of (s ++ r))
both_Passed s r (ok seen) p = (
  λ e. p.1 (subst (λ l. NoRepeat (keys seen) (map key_of l)) (append_nil r) (second.0 e)),
  λ h. second.1 (subst (λ l. NoRepeat (keys seen) (map key_of l)) (sym (append_nil r)) (p.0 h)),
)
  where
    second :
        ((check Origin.of_rendered 0 r seen >>= λ _. ok (s ++ r)) ≡ ok (s ++ r))
        ↔ NoRepeat (keys seen) (map key_of (r ++ []))
    second =
        then_Passed s r (check Origin.of_rendered 0 r seen) (keys seen)
          (check-Passed Origin.of_rendered 0 r [] seen)
both_Passed s r (err c) p = (λ e. absurd cc, λ h. absurd (p h))

-- What `merge` returns is the static routes and then the rendered ones.
pub merge_ok :
    (static_routes rendered routes : List RouteConfig)
    → merge static_routes rendered ≡ ok routes
    → static_routes ++ rendered ≡ routes
unfolding merge
merge_ok s r routes e =
    let (seen, first, later) = >>=-eq-ok (check Origin.of_static 0 s []) _ e in
    let (seen', second, same) =
      >>=-eq-ok (check Origin.of_rendered 0 r seen) (λ _. ok (s ++ r)) later in
    ok_inj (ok (s ++ r)) refl same

merge-NoRepeat :
    (s r : List RouteConfig) → (merge s r ≡ ok (s ++ r)) ↔ NoRepeat [] (map key_of (s ++ r))
unfolding merge
merge-NoRepeat s r =
    both_Passed s r (check Origin.of_static 0 s []) (check-Passed Origin.of_static 0 s r [])

-- Static and rendered routes merge into some routes exactly when these are the static ones and then the
-- rendered ones, and no two of them have the same host but for case and outer white space, path and kind
-- of match.
pub merge_iff :
    (static_routes rendered routes : List RouteConfig)
    → (merge static_routes rendered ≡ ok routes)
      ↔ ((routes ≡ static_routes ++ rendered) × NoRepeat [] (map key_of routes))
merge_iff s r routes = (
  λ e.
      let same = merge_ok s r routes e in
      (
        sym same,
        subst (λ l. NoRepeat [] (map key_of l)) same
            ((merge-NoRepeat s r).0 (subst (λ l. merge s r ≡ ok l) (sym same) e)),
      ),
  λ h.
      subst (λ l. merge s r ≡ ok l) (sym h.0)
        ((merge-NoRepeat s r).1 (subst (λ l. NoRepeat [] (map key_of l)) h.0 h.1)),
)
