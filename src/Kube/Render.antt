-- ===== src/Kube/Render.antt =====
-- `render_routes` and `render_upstreams` of crates/openrusty-k8s/src/render/routes.rs.
pub mod References
use openrusty.Prelude.{
  ℕ, Bool, true, false, ◌&&◌, ◌||◌, Option, none, some, List, [], ◌∷◌, ◌++◌, map, ltb,
  if◌then◌else◌, select, list_beq, list_eq, nat_eq, pair_eq,
}
use openrusty.Prelude.Text.{Text, codes, trim, lowercase, starts_with}
use openrusty.Prelude.Ordered.{text_lt, add_all}
use openrusty.Prelude.Result.{Result, ok, err, ◌>>=◌, gather}
use openrusty.Config.Schema.{BalancerKind, UpstreamConfig, default_health}
use openrusty.Routing.{RouteConfig}
use openrusty.Kube.{
  PathType, IngressBackend, HttpIngressPath, HttpIngressRuleValue, IngressRule, Ingress,
}
use openrusty.Kube.Backends.{
  RenderError, bad_path, upstream_name, endpoint, Target, target_eq, backend_target, name_of,
}
use openrusty.Kube.Snapshot.{ObjectKey, Snapshot}

unfoldable pub normalize_host : Text → Text
normalize_host host = lowercase (trim host)

abbrev pub normalized : Option Text → Option Text
normalized none = none
normalized (some host) = some (normalize_host host)

abbrev is_class : Text → Option Text → Bool
is_class cls none = false
is_class cls (some name) = list_beq name cls

abbrev pub label : ObjectKey → Text
label (ns, name) = codes "ingress " ++ (ns ++ (codes "/" ++ name))

-- The Ingresses of a class, which `owned` and `render_tls` filter alike.
unfoldable pub of_class : Text → List (ObjectKey × Ingress) → List (ObjectKey × Ingress)
of_class cls items = select (λ item. is_class cls item.1.spec.ingress_class_name) items

unfoldable pub owned : Snapshot Ingress → Text → List (Text × Ingress)
owned snap ingress_class = map (λ item. (label item.0, item.1)) (of_class ingress_class snap.items)

abbrev pub is_exact : PathType → Bool
is_exact PathType.exact = true
is_exact PathType.prefix = false
is_exact PathType.implementation_specific = false

abbrev pub route_to : Option Text → Text → Bool → Target → RouteConfig
route_to host path exact target = record {
  path_prefix = path;
  host = host;
  exact = exact;
  upstream = name_of target;
  timeout_ms = 0;
}

abbrev slash : Text
slash = codes "/"

abbrev pub default_routes :
    Text → Text → Option IngressBackend → Result RenderError (List RouteConfig)
default_routes owner ns none = ok []
default_routes owner ns (some backend) =
    backend_target owner ns backend >>= λ target. ok (route_to none slash false target ∷ [])

abbrev pub path_routes :
    Text → Text → Option Text → HttpIngressPath → Result RenderError (List RouteConfig)
path_routes owner ns host path =
    if starts_with path.path slash
    then (backend_target owner ns path.backend >>= λ target.
        ok (route_to (normalized host) path.path (is_exact path.path_type) target ∷ []))
    else err (bad_path owner path.path)

abbrev pub http_routes :
    Text → Text → Option Text → Option HttpIngressRuleValue → Result RenderError (List RouteConfig)
http_routes owner ns host none = ok []
http_routes owner ns host (some http) = gather (path_routes owner ns host) http.paths

abbrev pub ingress_routes : Text × Ingress → Result RenderError (List RouteConfig)
ingress_routes (owner, ing) =
    default_routes owner ing.metadata.namespace ing.spec.default_backend >>= λ first.
    gather (λ rule. http_routes owner ing.metadata.namespace rule.host rule.http) ing.spec.rules
    >>= λ rest. ok (first ++ rest)

unfoldable pub render_routes : Snapshot Ingress → Text → Result RenderError (List RouteConfig)
render_routes snap ingress_class = gather ingress_routes (owned snap ingress_class)

-- The order of the set of targets: namespace, service, number of the port.
abbrev pub target_lt : Target → Target → Bool
target_lt (ns, svc, port) (ns', svc', port') =
    text_lt ns ns' || list_beq ns ns' && (text_lt svc svc' || list_beq svc svc' && ltb port port')

abbrev pub default_targets : Text → Text → Option IngressBackend → Result RenderError (List Target)
default_targets owner ns none = ok []
default_targets owner ns (some backend) =
    backend_target owner ns backend >>= λ target. ok (target ∷ [])

abbrev pub path_targets : Text → Text → HttpIngressPath → Result RenderError (List Target)
path_targets owner ns path = backend_target owner ns path.backend >>= λ target. ok (target ∷ [])

abbrev pub http_targets :
    Text → Text → Option HttpIngressRuleValue → Result RenderError (List Target)
http_targets owner ns none = ok []
http_targets owner ns (some http) = gather (path_targets owner ns) http.paths

abbrev pub ingress_targets : Text × Ingress → Result RenderError (List Target)
ingress_targets (owner, ing) =
    default_targets owner ing.metadata.namespace ing.spec.default_backend >>= λ first.
    gather (λ rule. http_targets owner ing.metadata.namespace rule.http) ing.spec.rules >>= λ rest.
    ok (first ++ rest)

abbrev pub build_upstream : Target → UpstreamConfig
build_upstream (ns, svc, port) = record {
  name = upstream_name ns svc port;
  balancer = BalancerKind.swrr;
  retries = 0;
  retry_on_timeout = false;
  connect_timeout_ms = 2000;
  pool_idle_timeout_ms = 60000;
  peers = [];
  endpoints = endpoint ns svc port ∷ [];
  tls = none;
  health = record default_health { max_fails = 0 };
}

unfoldable pub render_upstreams : Snapshot Ingress → Text → Result RenderError (List UpstreamConfig)
render_upstreams snap ingress_class =
    gather ingress_targets (owned snap ingress_class) >>= λ targets.
    ok (map build_upstream (add_all target_lt targets []))
