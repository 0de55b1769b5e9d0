-- ===== src/Tests/Runtime.antt =====
-- Tests of the publishing of configurations, and the witnesses of its theorems.
use openrusty.Prelude.{
  ◌≡◌, refl, sym, subst, arith, ℕ, ◌+◌, ◌%◌, u64_mod, true, false, Option, none, some, List, [],
  ◌∷◌, map, NoRepeat, list_eq, nat_eq,
}
use openrusty.Prelude.Text.{Text, codes, starts_with, trim, trim_start, is_whitespace}
use openrusty.Prelude.Assoc.{get, insert}
use openrusty.Prelude.Result.{ok}
use openrusty.Health.{SocketAddr}
use openrusty.Store as Store
use openrusty.Config.Schema.{BalancerKind, default_health, UpstreamConfig}
use openrusty.Config.Checks.{validate, validate_egress, validate_ingress}
use openrusty.Config.{validate_listeners, validate_from, check_listener}
use openrusty.Runtime.{
  AppState, spawn, apply_runtime, apply_dynamic, apply_dynamic_routes, build_tls_plans,
}
use openrusty.Runtime.Registry.{
  PluginSnapshot, RegistryError, loaded, order_plugins, load_plugins, build, bootstrap, attempts,
}
use openrusty.Runtime.Registry as Registry
use openrusty.Runtime.Pool.{get_plain, evict_except}
use openrusty.Runtime.Registry.Carried.{Carries, build-Carries}
use openrusty.Runtime.Resolve.{resolve_config, resolve_upstream}
use openrusty.Runtime.Resolve.Addresses.{Resolved, resolve_upstream-Resolved}
use openrusty.Runtime.Reload.{
  Outside, load_config, apply_dynamic_dir_env, publish, apply_config, reload,
}
use openrusty.Runtime.Apply.{apply_pair, plan_pair, build_ingress_config}
use openrusty.Runtime.Boot.{initial, from_config}
use openrusty.Runtime.Outcome.{alone, Outcome, reload-Outcome}
use openrusty.Runtime.Steps.{
  booted, stepped, reloaded, applied, noted, composed, IsCoherent, Reachable-IsCoherent,
}
use openrusty.Tests.{addr_at, show_addr}
use openrusty.Tests.Config.{no_plugins, served, served_accepted, no_lookup}
use openrusty.Tests.Kube.{shops, pems, gw, plainly}

-- One plugin, a resolver with one answer, and TLS material that is a number.
abbrev outside : Outside ℕ
outside = record {
  lookup_host = λ name. some (addr_at 9001 ∷ addr_at 80 ∷ []);
  to_socket_addrs = no_lookup;
  build_tls = λ cfg. ok 0;
  discover = λ dir. ok (codes "p" ∷ []);
  compile_in = λ dir name. ok true;
  string_of = λ t. "u";
  show = show_addr;
}

abbrev first_plugins : PluginSnapshot
first_plugins = record { generation = 1; plugins = loaded no_plugins [] (codes "p") true ∷ [] }

abbrev next_plugins : PluginSnapshot
next_plugins = record {
  generation = 2;
  plugins = loaded no_plugins ((codes "p", Store.new) ∷ []) (codes "p") true ∷ [];
}

abbrev start : AppState ℕ ℕ
start =
    apply_runtime outside.string_of outside.show (initial ℕ outside served first_plugins) served 1
      []

starts : from_config ℕ outside served ≡ ok start
unfolding from_config bootstrap load_plugins order_plugins build_tls_plans
starts = refl

abbrev certified : Text → Text → Option ℕ
certified cert key = some 5

abbrev reloaded_state : AppState ℕ ℕ
reloaded_state = (reload outside false alone (ok served) none start).0

-- A reload comes between the two steps of the application of a pair.
abbrev after_pair : AppState ℕ ℕ
after_pair =
    (apply_pair outside plainly certified reloaded_state.static_config.routes gw (shops, pems)
      start.registry.generation reloaded_state).0

abbrev after_embed : AppState ℕ ℕ
after_embed = (apply_config outside false alone after_pair served).0

-- The runtime is then of the generation before that of the plugins.
overtaken : (after_pair.runtime.generation ≡ 1) × (after_pair.registry.generation ≡ 2)
unfolding reload publish load_config resolve_config resolve_upstream apply_runtime
    openrusty.Runtime.Pool.from_config get_plain evict_except insert get Registry.reload attempts
    build load_plugins order_plugins build_tls_plans spawn apply_dynamic apply_dynamic_routes
    apply_dynamic_dir_env validate validate_egress validate_ingress validate_listeners validate_from
    check_listener starts_with trim trim_start is_whitespace apply_pair plan_pair
    build_ingress_config openrusty.Kube.Render.render_routes openrusty.Kube.Render.render_upstreams
    openrusty.Kube.Render.of_class openrusty.Kube.Render.normalize_host
    openrusty.Kube.Tls.render_tls openrusty.Kube.Tls.decode_tls_secret
    openrusty.Kube.Tls.decode_field openrusty.Kube.Merge.merge openrusty.Kube.Merge.key_of
    openrusty.Prelude.Text.to_lower openrusty.Kube.Render.owned
    openrusty.Kube.Backends.backend_target openrusty.Kube.Backends.upstream_name
overtaken = (refl, refl)

Reachable-IsCoherent_example : IsCoherent after_embed
Reachable-IsCoherent_example =
    Reachable-IsCoherent outside plainly certified (λ c. c ≡ served) served 4 after_embed none
      (λ c e. subst (λ d. validate outside.to_socket_addrs d ≡ ok tt) (sym e) served_accepted)
      served_accepted (omega arith)
      (stepped 3 after_pair after_embed none none
        (stepped 2 reloaded_state after_pair (some start.registry.generation) none
          (stepped 1 start reloaded_state (some start.registry.generation)
            (some start.registry.generation)
            (stepped 0 start start none (some start.registry.generation) (booted start starts)
              (noted start))
            (reloaded false (ok served) none start (some start.registry.generation)))
          (composed gw (shops, pems) start.registry.generation reloaded_state))
        (applied false served after_pair none refl))

reload-Outcome_example : Outcome outside start (reload outside false alone (ok served) none start)
reload-Outcome_example = reload-Outcome outside false (ok served) none start

builds : build outside.discover outside.compile_in no_plugins first_plugins ≡ ok next_plugins
unfolding build load_plugins order_plugins get insert
builds = refl

build-Carries_example :
    NoRepeat [] (map (λ p. p.name) next_plugins.plugins)
    × (2 ≡ (1 + 1) % u64_mod)
    × Carries first_plugins.plugins next_plugins.plugins
build-Carries_example =
    build-Carries outside.discover outside.compile_in no_plugins first_plugins next_plugins
      (refl, tt) tt builds

abbrev by_name : UpstreamConfig
by_name = record {
  name = codes "u";
  balancer = BalancerKind.swrr;
  retries = 0;
  retry_on_timeout = false;
  connect_timeout_ms = 2000;
  pool_idle_timeout_ms = 60000;
  peers = record { addr = addr_at 9001; weight = 3 } ∷ [];
  endpoints = codes "u.web:80" ∷ codes "v.web:80" ∷ [];
  tls = none;
  health = default_health;
}

resolve_upstream-Resolved_example :
    Resolved outside.lookup_host by_name (resolve_upstream outside.lookup_host by_name)
resolve_upstream-Resolved_example = resolve_upstream-Resolved outside.lookup_host by_name

abbrev addrs_of : AppState ℕ ℕ → List (List SocketAddr)
addrs_of state = map (λ u. map (λ p. p.addr) u.1.up.peers) state.runtime.upstreams

-- The boot does not look endpoints up, and the reload of the same configuration does.
boots_without : addrs_of start ≡ (addr_at 9001 ∷ []) ∷ []
unfolding apply_runtime openrusty.Runtime.Pool.from_config get_plain evict_except insert get
boots_without = refl

reloads_with :
    addrs_of (reload outside false alone (ok served) none start).0
    ≡ (addr_at 9001 ∷ addr_at 80 ∷ []) ∷ []
unfolding reload publish load_config resolve_config resolve_upstream apply_runtime
    openrusty.Runtime.Pool.from_config get_plain evict_except insert get Registry.reload attempts
    build load_plugins order_plugins build_tls_plans spawn apply_dynamic apply_dynamic_routes
    apply_dynamic_dir_env validate validate_egress validate_ingress validate_listeners validate_from
    check_listener starts_with trim trim_start is_whitespace
reloads_with = refl
