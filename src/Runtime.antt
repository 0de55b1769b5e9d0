-- ===== src/Runtime.antt =====
-- crates/openrusty-server/src/state.rs: the state of the gateway, less the counters of the metrics, the
-- status of the watch, the clock, the prober's task and the signal of the shutdown, and how a configuration
-- is published into it. The peer health names an upstream by a native string: `string_of` is the string
-- of a text, and `show` is the `Display` of an address. What rustls makes of the TLS section of an upstream,
-- from the files that it names, is a parameter.
pub mod Pool
pub mod Resolve
pub mod Registry
pub mod Sni
pub mod Reload
pub mod Apply
pub mod Sound
pub mod Composed
pub mod Outcome
pub mod Boot
pub mod Planned
pub mod Steps
use openrusty.Prelude.{
  min, ℕ, Bool, true, false, not, Option, none, some, List, [], ◌∷◌, ◌++◌, map, length, replicate,
  String, list_eq, nat_eq, list_beq, if◌then◌else◌,
}
use openrusty.Prelude.Int.{ℤ, pos}
use openrusty.Prelude.Assoc.{get, insert}
use openrusty.Prelude.Text.{Text}
use openrusty.Prelude.Result.{Result, ok, err, ◌>>=◌}
use openrusty.Health.Data.{ActiveHealthConfig}
use openrusty.Health.{SocketAddr, HealthRegistry, register}
use openrusty.Dynamic.Table.{DynamicRoutes, reconcile}
use openrusty.Dynamic.Table as Table
use openrusty.Routing.{RouteConfig}
use openrusty.Picker.{Peer}
use openrusty.Config.Schema.{UpstreamTlsConfig, UpstreamConfig, DynamicConfig, Config}
use openrusty.Config.Equal.{dynamic_beq}
use openrusty.Runtime.Pool.{
  UpstreamTls, Upstream, from_config, key_of_config, PoolKey, http, https, ClientPool, get_plain,
  get_tls, evict_except,
}
use openrusty.Runtime.Registry.{PluginSnapshot}
use openrusty.Runtime.Sni.{CertResolver}

pub record UpstreamRt (M : Type 0) : Type 0 where
  pub up : Upstream M
  pub swrr : List ℤ

pub record RuntimeSnapshot (M : Type 0) : Type 0 where
  pub generation : ℕ
  pub routes : List RouteConfig
  pub upstreams : List (Text × UpstreamRt M)

abbrev pub empty_runtime : {M : Type 0} → RuntimeSnapshot M
empty_runtime = record { generation = 0; routes = []; upstreams = [] }

-- `DynamicRegistry`: its section and the modules that it has compiled.
pub record DynamicRegistry : Type 0 where
  pub config : DynamicConfig
  pub compiled : List Text

-- The task of the prober is kept as its interval.
pub record AppState (M K : Type 0) : Type 0 where
  pub registry : PluginSnapshot
  pub health : HealthRegistry
  pub pool : ClientPool M
  pub runtime : RuntimeSnapshot M
  pub admin_token : Option Text
  pub static_config : Config
  pub tls_resolver : Option (CertResolver K)
  pub dynamic_routes : DynamicRoutes
  pub dynamic : Option DynamicRegistry
  pub probe_task : Option ℕ

abbrev pub Plans : Type 0 → Type 0
Plans M = List (Text × UpstreamTls M)

module _ {M : Type 0} (build_tls : UpstreamTlsConfig → Result Text M) where
  -- `proxy::tls::build`
  abbrev built : UpstreamTlsConfig → Result Text (UpstreamTls M)
  built cfg = build_tls cfg >>= λ config.
      ok (record { server_name = cfg.server_name; key = key_of_config cfg; config = config })

  abbrev plan_step : UpstreamConfig → Option UpstreamTlsConfig → Plans M → Result Text (Plans M)
  plan_step uc none plans = ok plans
  plan_step uc (some tc) plans = built tc >>= λ tls. ok (insert uc.name tls plans)

  abbrev plans_from : List UpstreamConfig → Plans M → Result Text (Plans M)
  plans_from [] plans = ok plans
  plans_from (uc ∷ ucs) plans = plan_step uc uc.tls plans >>= plans_from ucs

  unfoldable pub build_tls_plans : Config → Result Text (Plans M)
  build_tls_plans cfg = plans_from cfg.upstreams []

-- What the loop of `apply_runtime` changes.
pub record Built (M : Type 0) : Type 0 where
  pub health : HealthRegistry
  pub pool : ClientPool M
  pub live_keys : List PoolKey
  pub upstreams : List (Text × UpstreamRt M)

module _ {M : Type 0} where
  -- The client of a peer, and its key.
  abbrev pub client_for : Upstream M → Option (UpstreamTls M) → Peer → Built M → Built M
  client_for up (some tls) p b = record b {
    pool = get_tls b.pool p.addr tls up.connect_timeout up.pool_idle_timeout;
    live_keys = b.live_keys ++ https p.addr tls.key ∷ [];
  }
  client_for up none p b = record b {
    pool = get_plain b.pool p.addr up.connect_timeout up.pool_idle_timeout;
    live_keys = b.live_keys ++ http p.addr ∷ [];
  }

  abbrev pub clients_for : Upstream M → List Peer → Built M → Built M
  clients_for up [] b = b
  clients_for up (p ∷ peers) b = clients_for up peers (client_for up up.tls p b)

module _ {M : Type 0} (string_of : Text → String) (show : SocketAddr → String) where
  -- One round of the loop.
  abbrev pub add_upstream : Upstream M → Built M → Built M
  add_upstream up b =
      let clients = clients_for up up.peers (record b {
        health = register show b.health (string_of up.name) (map (λ p. p.addr) up.peers);
      }) in
      record clients {
        upstreams =
            insert up.name (record { up = up; swrr = replicate (length up.peers) (pos 0) })
              clients.upstreams;
      }

  abbrev pub add_upstreams : Plans M → List UpstreamConfig → Built M → Built M
  add_upstreams plans [] b = b
  add_upstreams plans (uc ∷ ucs) b =
      add_upstreams plans ucs (add_upstream (from_config uc (get uc.name plans)) b)

  unfoldable pub apply_runtime : {K : Type 0} → AppState M K → Config → ℕ → Plans M → AppState M K
  apply_runtime state cfg generation tls_plans =
      let b =
        add_upstreams tls_plans cfg.upstreams
          (record { health = state.health; pool = state.pool; live_keys = []; upstreams = [] }) in
      record state {
        health = b.health;
        pool = evict_except b.pool b.live_keys;
        runtime = record { generation = generation; routes = cfg.routes; upstreams = b.upstreams };
      }

-- Whether the section differs from the one that the registry was built from.
abbrev pub is_changed : Option DynamicRegistry → Option DynamicConfig → Bool
is_changed (some prev) (some next) = not (dynamic_beq prev.config next)
is_changed none none = false
is_changed none (some next) = true
is_changed (some prev) none = true

abbrev pub new_registry : Option DynamicConfig → Option DynamicRegistry
new_registry none = none
new_registry (some d) = some (record { config = d; compiled = [] })

abbrev reconciled : DynamicRoutes → Option DynamicConfig → DynamicRoutes
reconciled t none = Table.new
reconciled t (some d) = reconcile t d.routes

module _ {M K : Type 0} where
  unfoldable pub apply_dynamic : AppState M K → Config → AppState M K
  apply_dynamic state cfg =
      if is_changed state.dynamic cfg.dynamic
      then record state { dynamic = new_registry cfg.dynamic }
      else state

  unfoldable pub apply_dynamic_routes : AppState M K → Config → AppState M K
  apply_dynamic_routes state cfg = record state {
    dynamic_routes = reconciled state.dynamic_routes cfg.dynamic;
  }

abbrev shorter : Option ℕ → ℕ → Option ℕ
shorter none n = some n
shorter (some least) n = some (min least n)

abbrev interval_of : Option ActiveHealthConfig → Option ℕ → Option ℕ
interval_of none interval_ms = interval_ms
interval_of (some active) interval_ms = shorter interval_ms active.interval_ms

-- The shortest interval of the upstreams that are probed.
abbrev pub probe_interval : {M : Type 0} → List (Text × UpstreamRt M) → Option ℕ → Option ℕ
probe_interval [] interval_ms = interval_ms
probe_interval ((name, rt) ∷ upstreams) interval_ms =
    probe_interval upstreams (interval_of rt.up.health.active interval_ms)

-- `spawn` of active_probe.rs: the old task ends, and one with the interval takes its place, if there is any.
unfoldable pub spawn : {M K : Type 0} → AppState M K → AppState M K
spawn state = record state { probe_task = probe_interval state.runtime.upstreams none }
