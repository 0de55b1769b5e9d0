-- ===== src/Runtime/Composed.antt =====
-- The upstreams of the configuration that `build_ingress_config` of
-- crates/openrusty-server/src/ingress/mod.rs composes, and that its routes name them.
use openrusty.Prelude.{
  ◌≡◌, refl, ap, ◌∙◌, subst, true, not, ◌||◌, List, [], ◌∷◌, ◌++◌, map, contains, select, All,
  All-mono, list_eq, nat_eq, list_beq, list_beq_iff, arith, Bool-cases, inl, inr, ◌&&◌,
}
use openrusty.Prelude.Text.{Text}
use openrusty.Prelude.Result.{Result, ok, err, ok_inj}
use openrusty.Config.Schema.{UpstreamConfig, Config}
use openrusty.Routing.{RouteConfig}
use openrusty.Kube.{Ingress}
use openrusty.Kube.Backends.{RenderError}
use openrusty.Kube.Snapshot.{Snapshot}
use openrusty.Kube.Render.{render_routes, render_upstreams}
use openrusty.Kube.Render.References.{Agree, render_upstreams_complete}
use openrusty.Kube.Merge.{merge}
use openrusty.Kube.Merge.Distinct.{merge_ok}
use openrusty.Runtime.Apply.{build_ingress_config}
use openrusty.Runtime.Sound.{names_of, Known}

contains-append :
    (xs ys : List UpstreamConfig) (name : Text)
    → contains (names_of (xs ++ ys)) name
      ≡ (contains (names_of xs) name || contains (names_of ys) name)
contains-append [] ys name = refl
contains-append (x ∷ xs) ys name = ground (arith, contains-append xs ys name)

-- Of the names that are free, what `filter` keeps.
contains-free :
    (taken : List Text) (ups : List UpstreamConfig) (name : Text)
    → contains (names_of (select (λ u. not (contains taken u.name)) ups)) name
      ≡ (contains (names_of ups) name && not (contains taken name))
contains-free taken [] name = refl
contains-free taken (u ∷ ups) name = elim (Bool-cases (list_beq u.name name)) [
  | inl same ↦ ground (
    arith,
    contains-free taken ups name,
    same,
    ap (contains taken) ((list_beq_iff u.name name).0 same),
  )
  | inr other ↦ ground (arith, contains-free taken ups name, other)
]

-- A name stands among the base's or among the rendered ones: a rendered name that is taken stays, as the
-- base's.
contains-composed :
    (base rendered : List UpstreamConfig) (name : Text)
    → contains
        (names_of (base ++ select (λ u. not (contains (names_of base) u.name)) rendered))
        name
      ≡ (contains (names_of base) name || contains (names_of rendered) name)
contains-composed base rendered name =
    contains-append base _ name
    ∙ ap (λ b. contains (names_of base) name || b) (contains-free (names_of base) rendered name)
    ∙ ground arith

All-append {ℓ} :
    {A : Type ℓ} (P : A → Type 0) (xs ys : List A) → All P xs → All P ys → All P (xs ++ ys)
All-append P [] ys h k = k
All-append P (x ∷ xs) ys h k = (h.0, All-append P xs ys h.1 k)

-- Each of some routes names an upstream that some of them names.
named_self :
    (routes : List RouteConfig)
    → All (λ route. contains (map (λ r. r.upstream) routes) route.upstream ≡ true) routes
named_self [] = tt
named_self (r ∷ routes) = (
  ground (arith, list_beq_iff r.upstream r.upstream),
  All-mono _ _ (λ route h. ground (arith, h)) routes (named_self routes),
)

-- Routes of the base, and rendered routes whose names the rendered upstreams have.
pub Known-composed :
    (base : Config) (static_routes rendered : List RouteConfig) (upstreams : List UpstreamConfig)
    → Known base.upstreams static_routes
    → ((name : Text)
        → contains (names_of upstreams) name ≡ contains (map (λ r. r.upstream) rendered) name)
    → Known
        (build_ingress_config base (static_routes ++ rendered) upstreams).upstreams
        (build_ingress_config base (static_routes ++ rendered) upstreams).routes
unfolding build_ingress_config
Known-composed base static_routes rendered upstreams known agree =
    All-append _ static_routes rendered
      (All-mono _ _
        (λ route h. contains-composed base.upstreams upstreams route.upstream ∙ ground (arith, h))
        static_routes known)
      (All-mono _ _
        (λ route h.
          contains-composed base.upstreams upstreams route.upstream
          ∙ ground (arith, h, agree route.upstream))
        rendered (named_self rendered))

agreed :
    (routes : List RouteConfig) (found : Result RenderError (List UpstreamConfig))
    (upstreams : List UpstreamConfig)
    → Agree routes found
    → found ≡ ok upstreams
    → (name : Text)
    → contains (names_of upstreams) name ≡ contains (map (λ r. r.upstream) routes) name
agreed routes (ok ups) upstreams h e name =
    ap (λ u. contains (names_of u) name) (ok_inj (ok ups) e refl) ∙ h name
agreed routes (err x) upstreams h e name = absurd h

-- The configuration that a rendered pair is composed to.
pub composed-Known :
    (base : Config) (static_routes : List RouteConfig) (ingresses : Snapshot Ingress) (cls : Text)
    (rendered routes : List RouteConfig) (upstreams : List UpstreamConfig)
    → Known base.upstreams static_routes
    → render_routes ingresses cls ≡ ok rendered
    → render_upstreams ingresses cls ≡ ok upstreams
    → merge static_routes rendered ≡ ok routes
    → Known
        (build_ingress_config base routes upstreams).upstreams
        (build_ingress_config base routes upstreams).routes
composed-Known base static_routes ingresses cls rendered routes upstreams known r u m =
    subst
      (λ all.
        Known (build_ingress_config base all upstreams).upstreams
          (build_ingress_config base all upstreams).routes)
      (merge_ok static_routes rendered routes m)
      (Known-composed base static_routes rendered upstreams known (
        agreed rendered (render_upstreams ingresses cls) upstreams
          (render_upstreams_complete ingresses cls rendered r) u))
