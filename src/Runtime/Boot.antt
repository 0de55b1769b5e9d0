-- ===== src/Runtime/Boot.antt =====
-- `from_config` of crates/openrusty-server/src/state.rs: the state that the gateway starts with. The engine
-- and the linker of the registry are taken to start; the fields are those of `AppState`.
use openrusty.Prelude.{Bool, not, ◌&&◌, Option, none, some, List, [], if◌then◌else◌}
use openrusty.Prelude.Text.{Text, some_of}
use openrusty.Prelude.Result.{Result, ok, err, ◌>>=◌}
use openrusty.Health as Health
use openrusty.Admin.{effective_token}
use openrusty.Dynamic.{DynamicRoute}
use openrusty.Dynamic.Table.{reconcile}
use openrusty.Dynamic.Table as Table
use openrusty.Config.Schema.{ListenerRole, role_beq, ListenerConfig, DynamicConfig, Config}
use openrusty.Config.{effective_listeners}
use openrusty.Runtime.Pool.{UpstreamTls, new_pool}
use openrusty.Runtime.Registry.{PluginSnapshot, RegistryError, io, bootstrap}
use openrusty.Runtime.Sni.{CertResolver}
use openrusty.Runtime.Sni as Sni
use openrusty.Runtime.Reload.{Outside}
use openrusty.Runtime.{AppState, empty_runtime, build_tls_plans, apply_runtime, new_registry}

unfoldable pub uses_tls : ListenerConfig → Bool
uses_tls l = l.tls && not (role_beq l.role ListenerRole.outbound)

abbrev routes_of : Option DynamicConfig → List DynamicRoute
routes_of none = []
routes_of (some d) = d.routes

module _ {M : Type 0} (K : Type 0) (w : Outside M) where
  abbrev resolver_for : Config → Option (CertResolver K)
  resolver_for cfg = if some_of uses_tls (effective_listeners cfg) then some Sni.new else none

  -- The state before the first runtime.
  abbrev pub initial : Config → PluginSnapshot → AppState M K
  initial cfg registry = record {
    registry = registry;
    health = Health.new;
    pool = new_pool;
    runtime = empty_runtime;
    admin_token = effective_token cfg.admin;
    static_config = cfg;
    tls_resolver = resolver_for cfg;
    dynamic_routes = reconcile Table.new (routes_of cfg.dynamic);
    dynamic = new_registry cfg.dynamic;
    probe_task = none;
  }

  abbrev pub plans_or_io :
      Result Text (List (Text × UpstreamTls M)) → Result RegistryError (List (Text × UpstreamTls M))
  plans_or_io (ok plans) = ok plans
  plans_or_io (err detail) = err (io detail)

  unfoldable pub from_config : Config → Result RegistryError (AppState M K)
  from_config cfg = plans_or_io (build_tls_plans w.build_tls cfg) >>= λ tls_plans.
      bootstrap w.discover w.compile_in cfg.plugins >>= λ registry.
      ok (apply_runtime w.string_of w.show (initial cfg registry) cfg registry.generation tls_plans)
