-- ===== src/Tests/Config.antt =====
-- A test of the validation of listeners, and the witness of its theorem.
use openrusty.Prelude.{◌≡◌, ◌↔◌, refl, true, false, none, Option, List, [], ◌∷◌}
use openrusty.Prelude.Result.{ok, err}
use openrusty.Health.Data.{SocketAddr, addr_eq}
use openrusty.Prelude.Text.{Text, codes, starts_with, trim, trim_start, is_whitespace}
use openrusty.Session.{FailPolicy}
use openrusty.Config.Schema.{
  ListenerRole, role_eq, ListenerConfig, ServerConfig, PluginsConfig, Config, EgressMode,
  BalancerKind, default_health,
}
use openrusty.Config.{Fault, check_listener, validate_from, validate_listeners, derived_listener}
use openrusty.Config.Checks.{ConfigError, validate, validate_egress, validate_ingress}
use openrusty.Config.Valid.{ValidConfig, validate_iff}
use openrusty.Tests.{addr_at}

abbrev plain : ServerConfig
plain = record {
  listen = addr_at 8080;
  log_level = codes "info";
  log_file = none;
  http1_only = false;
  listeners = [];
  shutdown_grace_ms = 30000;
}

abbrev pub no_plugins : PluginsConfig
no_plugins = record {
  dir = codes "plugins";
  order = [];
  timeout_ms = 50;
  max_memory_mb = 64;
  on_failure = FailPolicy.fail_open;
  settings = [];
  instance_pool_size = 8;
  log_on_no_route = false;
}

abbrev outbound_listener : ListenerConfig
outbound_listener = record {
  role = ListenerRole.outbound;
  listen = addr_at 15001;
  http1_only = false;
  transparent = true;
  detect_timeout_ms = 3000;
  tls = false;
  tls_cert = none;
  tls_key = none;
}

abbrev with_listeners : List ListenerConfig → Config
with_listeners ls = record {
  server = record {
    listen = addr_at 8080;
    log_level = codes "info";
    log_file = none;
    http1_only = false;
    listeners = ls;
    shutdown_grace_ms = 30000;
  };
  admin = record { token = none };
  plugins = no_plugins;
  dynamic = none;
  upstreams = [];
  routes = [];
  ingress = record {
    enabled = false;
    ingress_class = codes "nginx";
    kubeconfig = [];
    namespaces = [];
  };
  egress = record { mode = EgressMode.direct; gateway = [] };
}

abbrev two_listeners : Config
two_listeners = with_listeners (derived_listener plain ∷ outbound_listener ∷ [])

accepted : validate_listeners two_listeners ≡ ok tt
unfolding validate_listeners validate_from check_listener
accepted = refl

refused :
    validate_listeners (with_listeners (outbound_listener ∷ outbound_listener ∷ []))
    ≡ err (1, Fault.repeats_role)
unfolding validate_listeners validate_from check_listener
refused = refl

-- A configuration with one upstream and a route to it.
abbrev pub served : Config
served = record (with_listeners []) {
  upstreams =
      record {
        name = codes "u";
        balancer = BalancerKind.swrr;
        retries = 0;
        retry_on_timeout = false;
        connect_timeout_ms = 2000;
        pool_idle_timeout_ms = 60000;
        peers = record { addr = addr_at 9001; weight = 1 } ∷ [];
        endpoints = codes "u.web:80" ∷ [];
        tls = none;
        health = default_health;
      }
      ∷ [];
  routes =
      record {
        path_prefix = codes "/api";
        host = none;
        exact = false;
        upstream = codes "u";
        timeout_ms = 0;
      }
      ∷ [];
}

abbrev pub no_lookup : Text → Option (List SocketAddr)
no_lookup t = none

pub served_accepted : validate no_lookup served ≡ ok tt
unfolding validate validate_egress validate_ingress validate_listeners validate_from check_listener
    starts_with trim trim_start is_whitespace
served_accepted = refl

-- Without its upstream the route leads nowhere.
served_refused :
    validate no_lookup (record served { upstreams = [] }) ≡ err ConfigError.no_upstreams
unfolding validate validate_egress validate_ingress validate_listeners validate_from check_listener
    starts_with trim trim_start is_whitespace
served_refused = refl

validate_iff_example : (validate no_lookup served ≡ ok tt) ↔ ValidConfig no_lookup served
validate_iff_example = validate_iff no_lookup served
