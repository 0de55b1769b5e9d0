-- ===== src/Config/Checks.antt =====
-- `validate` of crates/openrusty-core/src/config.rs and of its sections config/dynamic.rs, config/tls.rs,
-- config/ingress.rs and config/egress.rs. An error of the source is a text; here it is a value with what
-- the text names. The addresses that the system's resolver gives a text, `to_socket_addrs`, are a
-- parameter.
use openrusty.Prelude.{
  ℕ, Bool, true, false, not, ◌&&◌, Option, none, some, List, [], ◌∷◌, ◌==◌, if◌then◌else◌, is_some,
  contains, list_beq, list_eq, nat_eq, pair_eq,
}
use openrusty.Prelude.Text.{Text, codes, trim, is_empty, starts_with, strip_suffix, some_of}
use openrusty.Prelude.Result.{Result, ok, err, refuse, ◌>>◌, each_from}
use openrusty.Health.Data.{SocketAddr, ActiveHealthConfig}
use openrusty.Dynamic.{DynamicRoute, normalize_method, normalize_route_path, valid_module_name}
use openrusty.Routing.{RouteConfig}
use openrusty.Config.Schema.{
  DynamicConfig, IngressConfig, EgressMode, EgressConfig, UpstreamTlsConfig, PeerConfig,
  UpstreamConfig, Config,
}
use openrusty.Config.{Fault, validate_listeners, one_of}

pub data ConfigError : Type 0 where
  bad_log_level zero_plugin_timeout zero_plugin_memory : ConfigError
  zero_dynamic_timeout zero_dynamic_memory zero_dynamic_body empty_dynamic_dir : ConfigError
  bad_setting_key bad_method bad_route_path bad_module : Text → ConfigError
  repeats_binding : Text → Text → ConfigError
  bad_listener : ℕ → Fault → ConfigError
  empty_class : ConfigError
  empty_namespace : ℕ → ConfigError
  no_gateway : ConfigError
  unresolved_gateway repeats_plugin : Text → ConfigError
  no_upstreams empty_upstream_name : ConfigError
  repeats_upstream no_peers : Text → ConfigError
  empty_endpoint zero_weight : Text → ℕ → ConfigError
  empty_server_name no_ca_cert partial_client : Text → ConfigError
  zero_interval zero_timeout zero_unhealthy zero_healthy bad_probe_path : Text → ConfigError
  bad_path_prefix empty_host : ℕ → ConfigError
  unknown_upstream : ℕ → Text → ConfigError

abbrev Checked : Type 0
Checked = Result ConfigError (Unit {0})

abbrev or_empty : Option Text → Text
or_empty none = []
or_empty (some t) = t

-- The path of a binding without the mark of a prefix.
abbrev pub base_path : Text → Text
base_path path = elim (strip_suffix path (codes "/*")) [ none ↦ path | some base ↦ base ]

-- The slot of a binding, `seen` of the source.
abbrev pub route_slot : DynamicRoute → Text × Text
route_slot r = (or_empty (normalize_method r.method), base_path r.path)

abbrev pub check_binding : List (Text × Text) → DynamicRoute → Checked
check_binding seen r =
    refuse (not (is_some (normalize_method r.method))) (bad_method r.method)
    >> refuse (not (is_some (normalize_route_path r.path))) (bad_route_path r.path)
    >> refuse (not (valid_module_name r.target)) (bad_module r.target)
    >> refuse (contains seen (route_slot r)) (repeats_binding r.method r.path)

abbrev pub check_bindings : List (Text × Text) → List DynamicRoute → Checked
check_bindings seen [] = ok tt
check_bindings seen (r ∷ routes) =
    check_binding seen r >> check_bindings (route_slot r ∷ seen) routes

abbrev pub check_setting : ℕ → Text × List (Text × Text) → Checked
check_setting i (key, value) = refuse (not (valid_module_name key)) (bad_setting_key key)

unfoldable pub validate_dynamic : DynamicConfig → Checked
validate_dynamic d =
    refuse (d.timeout_ms == 0) zero_dynamic_timeout
    >> refuse (d.max_memory_mb == 0) zero_dynamic_memory
    >> refuse (d.max_body_bytes == 0) zero_dynamic_body
    >> refuse (is_empty (trim d.dir)) empty_dynamic_dir
    >> each_from check_setting 0 d.settings
    >> check_bindings [] d.routes

abbrev pub validate_section : Option DynamicConfig → Checked
validate_section none = ok tt
validate_section (some d) = validate_dynamic d

abbrev pub listener_check : Result (ℕ × Fault) (Unit {0}) → Checked
listener_check (ok tt) = ok tt
listener_check (err (i, fault)) = err (bad_listener i fault)

abbrev pub check_namespace : ℕ → Text → Checked
check_namespace i ns = refuse (is_empty (trim ns)) (empty_namespace i)

unfoldable pub validate_ingress : IngressConfig → Checked
validate_ingress cfg =
    refuse (is_empty (trim cfg.ingress_class)) empty_class
    >> each_from check_namespace 0 cfg.namespaces

-- Every address is of version 4 or 6, so the first serves.
abbrev first : List SocketAddr → Option SocketAddr
first [] = none
first (a ∷ rest) = some a

abbrev addresses : Option (List SocketAddr) → List SocketAddr
addresses none = []
addresses (some found) = found

abbrev pub is_gateway : EgressMode → Bool
is_gateway EgressMode.gateway = true
is_gateway EgressMode.direct = false
is_gateway EgressMode.deny = false

abbrev pub check_order : List Text → List Text → Checked
check_order seen [] = ok tt
check_order seen (name ∷ names) =
    refuse (contains seen name) (repeats_plugin name) >> check_order (name ∷ seen) names

unfoldable pub validate_tls : Text → UpstreamTlsConfig → Checked
validate_tls upstream_name cfg =
    refuse (is_empty (trim cfg.server_name)) (empty_server_name upstream_name)
    >> refuse (not (is_some cfg.ca_cert) && not cfg.insecure_skip_verify) (no_ca_cert upstream_name)
    >> refuse (one_of (is_some cfg.client_cert) (is_some cfg.client_key))
        (partial_client upstream_name)

abbrev pub check_tls : Text → Option UpstreamTlsConfig → Checked
check_tls name none = ok tt
check_tls name (some tls) = validate_tls name tls

abbrev pub check_active : Text → Option ActiveHealthConfig → Checked
check_active name none = ok tt
check_active name (some active) =
    refuse (active.interval_ms == 0) (zero_interval name)
    >> refuse (active.timeout_ms == 0) (zero_timeout name)
    >> refuse (active.unhealthy_threshold == 0) (zero_unhealthy name)
    >> refuse (active.healthy_threshold == 0) (zero_healthy name)
    >> refuse (not (starts_with active.path (codes "/"))) (bad_probe_path name)

abbrev pub check_upstream : List Text → UpstreamConfig → Checked
check_upstream seen up =
    refuse (is_empty up.name) empty_upstream_name
    >> refuse (contains seen up.name) (repeats_upstream up.name)
    >> refuse (is_empty up.peers && is_empty up.endpoints) (no_peers up.name)
    >> each_from (λ i ep. refuse (is_empty (trim ep)) (empty_endpoint up.name i)) 0 up.endpoints
    >> each_from (λ i (p : PeerConfig). refuse (p.weight == 0) (zero_weight up.name i)) 0 up.peers
    >> check_tls up.name up.tls
    >> check_active up.name up.health.active

abbrev pub check_upstreams : List Text → List UpstreamConfig → Checked
check_upstreams seen [] = ok tt
check_upstreams seen (up ∷ ups) = check_upstream seen up >> check_upstreams (up.name ∷ seen) ups

abbrev pub check_host : ℕ → Option Text → Checked
check_host i none = ok tt
check_host i (some host) = refuse (is_empty (trim host)) (empty_host i)

abbrev pub check_route : List UpstreamConfig → ℕ → RouteConfig → Checked
check_route upstreams i route =
    refuse (not (starts_with route.path_prefix (codes "/"))) (bad_path_prefix i)
    >> check_host i route.host
    >> refuse (not (some_of (λ u. list_beq u.name route.upstream) upstreams))
        (unknown_upstream i route.upstream)

abbrev pub levels : List Text
levels = codes "trace" ∷ codes "debug" ∷ codes "info" ∷ codes "warn" ∷ codes "error" ∷ []

module _ (to_socket_addrs : Text → Option (List SocketAddr)) where
  unfoldable pub resolve_gateway : EgressConfig → Option SocketAddr
  resolve_gateway cfg = first (addresses (to_socket_addrs cfg.gateway))

  unfoldable pub validate_egress : EgressConfig → Checked
  validate_egress cfg =
      if is_gateway cfg.mode
      then (refuse (is_empty (trim cfg.gateway)) no_gateway
          >> refuse (not (is_some (resolve_gateway cfg))) (unresolved_gateway cfg.gateway))
      else ok tt

  unfoldable pub validate : Config → Checked
  validate cfg =
      refuse (not (contains levels cfg.server.log_level)) bad_log_level
      >> refuse (cfg.plugins.timeout_ms == 0) zero_plugin_timeout
      >> refuse (cfg.plugins.max_memory_mb == 0) zero_plugin_memory
      >> validate_section cfg.dynamic
      >> listener_check (validate_listeners cfg)
      >> validate_ingress cfg.ingress
      >> validate_egress cfg.egress
      >> check_order [] cfg.plugins.order
      >> refuse (is_empty cfg.upstreams && not (is_empty cfg.routes)) no_upstreams
      >> check_upstreams [] cfg.upstreams
      >> each_from (check_route cfg.upstreams) 0 cfg.routes
