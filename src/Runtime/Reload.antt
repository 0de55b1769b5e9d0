-- ===== src/Runtime/Reload.antt =====
-- crates/openrusty-server/src/reload.rs, and `load_config` of crates/openrusty-core/src/config.rs. Whether
-- the reload gate is held already is an argument. The reading and the parsing of the file, the environment
-- variable and the resolver of the system are parameters.
use openrusty.Prelude.{ℕ, Bool, Option, none, some, List, [], map, String, if◌then◌else◌}
use openrusty.Prelude.Text.{Text, trim, is_empty}
use openrusty.Prelude.Result.{Result, ok, err, ◌>>=◌, ◌>>◌}
use openrusty.Health.{SocketAddr}
use openrusty.Session.{FailPolicy}
use openrusty.Admin.{effective_token}
use openrusty.Config.Schema.{UpstreamTlsConfig, DynamicConfig, Config}
use openrusty.Config.Checks.{ConfigError, validate}
use openrusty.Runtime.Pool.{UpstreamTls}
use openrusty.Runtime.Resolve.{resolve_config}
use openrusty.Runtime.Registry.{PluginSnapshot, RegistryError}
use openrusty.Runtime.Registry as Registry
use openrusty.Runtime.{
  AppState, build_tls_plans, apply_runtime, apply_dynamic, apply_dynamic_routes, spawn,
}

pub data ReloadError : Type 0 where
  in_flight : ReloadError
  failed_config : ConfigError → ReloadError
  failed_tls : Text → ReloadError
  failed_plugins : RegistryError → ReloadError

-- A section with the values of `DynamicConfig::default`, but for its directory.
abbrev default_dynamic : Text → DynamicConfig
default_dynamic dir = record {
  dir = dir;
  timeout_ms = 50;
  max_memory_mb = 16;
  on_failure = FailPolicy.fail_open;
  max_body_bytes = 1048576;
  settings = [];
  routes = [];
}

-- What the code calls outside the repository, and the files that it reads.
pub record Outside (M : Type 0) : Type 0 where
  pub lookup_host : Text → Option (List SocketAddr)
  pub to_socket_addrs : Text → Option (List SocketAddr)
  pub build_tls : UpstreamTlsConfig → Result Text M
  pub discover : Text → Result RegistryError (List Text)
  pub compile_in : Text → Text → Result RegistryError Bool
  pub string_of : Text → String
  pub show : SocketAddr → String

abbrev dynamic_in : Text → Option DynamicConfig → DynamicConfig
dynamic_in dir none = default_dynamic dir
dynamic_in dir (some d) = record d { dir = dir }

-- The override of the directory by the environment variable, if it is set.
unfoldable pub apply_dynamic_dir_env : Option Text → Option DynamicConfig → Option DynamicConfig
apply_dynamic_dir_env none dynamic = dynamic
apply_dynamic_dir_env (some dir) dynamic =
    if is_empty (trim dir) then dynamic else some (dynamic_in (trim dir) dynamic)

-- The generation and the names of the plugins.
abbrev pub Report : Type 0
Report = ℕ × List Text

module _ {M : Type 0} (w : Outside M) where
  unfoldable pub load_config : Result ConfigError Config → Option Text → Result ConfigError Config
  load_config file env = file >>= λ parsed.
      let cfg = record parsed { dynamic = apply_dynamic_dir_env env parsed.dynamic } in
      validate w.to_socket_addrs cfg >> ok cfg

  module _ {K : Type 0} where
    -- What follows the reload of the registry.
    abbrev pub publish_with :
        AppState M K
        → Config
        → List (Text × UpstreamTls M)
        → PluginSnapshot × Result RegistryError ℕ
        → AppState M K × Result ReloadError ℕ
    publish_with state cfg tls_plans (registry, err e) =
        (record state { registry = registry }, err (failed_plugins e))
    publish_with state cfg tls_plans (registry, ok generation) =
        let started =
          apply_runtime w.string_of w.show (record state { registry = registry }) cfg generation
            tls_plans in
        (spawn (apply_dynamic_routes (apply_dynamic started cfg) cfg), ok generation)

    abbrev pub publish_resolved :
        (ℕ → Option PluginSnapshot)
        → AppState M K
        → Config
        → Result Text (List (Text × UpstreamTls M))
        → AppState M K × Result ReloadError ℕ
    publish_resolved others state cfg (err detail) = (state, err (failed_tls detail))
    publish_resolved others state cfg (ok tls_plans) =
        publish_with state cfg tls_plans
          (Registry.reload w.discover w.compile_in cfg.plugins others state.registry)

    unfoldable pub publish :
        (ℕ → Option PluginSnapshot) → AppState M K → Config → AppState M K × Result ReloadError ℕ
    publish others state cfg =
        let resolved = resolve_config w.lookup_host cfg in
        publish_resolved others state resolved (build_tls_plans w.build_tls resolved)

    -- `apply_config`
    unfoldable pub apply_config :
        Bool
        → (ℕ → Option PluginSnapshot)
        → AppState M K
        → Config
        → AppState M K × Result ReloadError ℕ
    apply_config held others state cfg =
        let published = publish others state cfg in
        if held then (state, err in_flight) else published

    -- The token of the management plane rotates on a reload that succeeds.
    abbrev pub rotate :
        Config → AppState M K × Result ReloadError ℕ → AppState M K × Result ReloadError Report
    rotate cfg (state, err e) = (state, err e)
    rotate cfg (state, ok generation) = (
      record state { admin_token = effective_token cfg.admin },
      ok (generation, map (λ p. p.name) state.registry.plugins),
    )

    abbrev pub reload_loaded :
        (ℕ → Option PluginSnapshot)
        → AppState M K
        → Result ConfigError Config
        → AppState M K × Result ReloadError Report
    reload_loaded others state (err e) = (state, err (failed_config e))
    reload_loaded others state (ok cfg) = rotate cfg (publish others state cfg)

    unfoldable pub reload :
        Bool
        → (ℕ → Option PluginSnapshot)
        → Result ConfigError Config
        → Option Text
        → AppState M K
        → AppState M K × Result ReloadError Report
    reload held others file env state =
        let run = reload_loaded others state (load_config file env) in
        if held then (state, err in_flight) else run
