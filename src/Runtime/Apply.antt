-- ===== src/Runtime/Apply.antt =====
-- crates/openrusty-server/src/ingress/mod.rs: the configuration that the gateway composes of its static
-- configuration and the rendered cluster, and the all-or-nothing application of a pair of snapshots.
use openrusty.Prelude.{
  ℕ, not, Option, none, some, List, [], ◌∷◌, ◌++◌, map, contains, select, list_eq, nat_eq,
}
use openrusty.Prelude.Text.{Text, codes}
use openrusty.Prelude.Result.{Result, ok, err, ◌>>=◌}
use openrusty.Config.Schema.{UpstreamConfig, Config}
use openrusty.Routing.{RouteConfig}
use openrusty.Kube.{Ingress, Secret}
use openrusty.Kube.Snapshot.{Snapshot}
use openrusty.Kube.Backends.{RenderError}
use openrusty.Kube.Render.{render_routes, render_upstreams}
use openrusty.Kube.Merge.{Conflict, merge}
use openrusty.Kube.Tls.{TlsPair, render_tls}
use openrusty.Runtime.Pool.{UpstreamTls}
use openrusty.Runtime.Resolve.{resolve_config}
use openrusty.Runtime.Sni.{CertResolver, update_from_tls_pairs}
use openrusty.Runtime.Reload.{Outside}
use openrusty.Runtime.{AppState, build_tls_plans, apply_runtime}

abbrev query_tail : Text → Text → Text
query_tail resource [] = resource
query_tail resource (c ∷ query) = resource ++ (codes "?" ++ (c ∷ query))

abbrev path_in : Text → Text → Text → Text
path_in api tail ns = api ++ (codes "/namespaces/" ++ (ns ++ (codes "/" ++ tail)))

abbrev paths : Text → Text → List Text → List Text
paths api tail [] = (api ++ (codes "/" ++ tail)) ∷ []
paths api tail (ns ∷ namespaces) = map (path_in api tail) (ns ∷ namespaces)

unfoldable pub resource_paths : Text → Text → Text → List Text → List Text
resource_paths api resource query namespaces = paths api (query_tail resource query) namespaces

abbrev pub ingress_paths : List Text → List Text
ingress_paths = resource_paths (codes "/apis/networking.k8s.io/v1") (codes "ingresses") []

abbrev pub secret_paths : List Text → List Text
secret_paths =
    resource_paths (codes "/api/v1") (codes "secrets")
      (codes "fieldSelector=type%3Dkubernetes.io%2Ftls")

abbrev pub names_of : List UpstreamConfig → List Text
names_of ups = map (λ u. u.name) ups

unfoldable pub build_ingress_config : Config → List RouteConfig → List UpstreamConfig → Config
build_ingress_config base routes rendered_upstreams = record base {
  routes = routes;
  upstreams =
      base.upstreams
      ++ select (λ u. not (contains (names_of base.upstreams) u.name)) rendered_upstreams;
}

-- Why a pair of snapshots is not applied.
pub data Rejection : Type 0 where
  no_render : RenderError → Rejection
  conflicts : Conflict → Rejection
  no_tls : Text → Rejection

abbrev pub rejecting {ℓ κ} :
    {E : Type ℓ} {A : Type κ} → (E → Rejection) → Result E A → Result Rejection A
rejecting f (ok a) = ok a
rejecting f (err e) = err (f e)

-- What an application is made of: the configuration, its outbound TLS material and the certificates.
abbrev pub Plan : Type 0 → Type 0
Plan M = Config × List (Text × UpstreamTls M) × List (Text × TlsPair)

module _ {M : Type 0} (w : Outside M) (decode : Text → Result Text Text) where
  -- The endpoints looked up, and the outbound TLS material.
  abbrev pub plan_of : Config → List (Text × TlsPair) → Result Rejection (Plan M)
  plan_of composed tls =
      let cfg = resolve_config w.lookup_host composed in
      rejecting no_tls (build_tls_plans w.build_tls cfg) >>= λ tls_plans. ok (cfg, tls_plans, tls)

  unfoldable pub plan_pair :
      Config
      → List RouteConfig
      → Text
      → Snapshot Ingress × Snapshot Secret
      → Result Rejection (Plan M)
  plan_pair base static_routes cls (ingresses, secrets) =
      rejecting no_render (render_routes ingresses cls) >>= λ rendered.
      rejecting no_render (render_upstreams ingresses cls) >>= λ upstreams.
      rejecting no_render (render_tls decode ingresses secrets cls) >>= λ tls.
      rejecting conflicts (merge static_routes rendered) >>= λ routes.
      plan_of (build_ingress_config base routes upstreams) tls

module _ {M K : Type 0} (w : Outside M) (decode : Text → Result Text Text)
    (certified_key : Text → Text → Option K) where
  abbrev republished : Option (CertResolver K) → List (Text × TlsPair) → Option (CertResolver K)
  republished none tls = none
  republished (some r) tls = some (update_from_tls_pairs certified_key r tls).0

  abbrev pub apply_plan :
      ℕ → AppState M K → Result Rejection (Plan M) → AppState M K × Result Rejection (Unit {0})
  apply_plan generation state (err e) = (state, err e)
  apply_plan generation state (ok (cfg, tls_plans, tls)) =
      let applied = apply_runtime w.string_of w.show state cfg generation tls_plans in
      (record applied { tls_resolver = republished applied.tls_resolver tls }, ok tt)

  -- `apply_pair` with the generation that it read of the registry, which a reload may have replaced since.
  unfoldable pub apply_pair :
      List RouteConfig
      → Text
      → Snapshot Ingress × Snapshot Secret
      → ℕ
      → AppState M K
      → AppState M K × Result Rejection (Unit {0})
  apply_pair static_routes cls pair generation state =
      apply_plan generation state (plan_pair w decode state.static_config static_routes cls pair)
