-- ===== src/Runtime/Outcome.antt =====
-- What a reload of crates/openrusty-server/src/reload.rs leaves behind.
use openrusty.Prelude.{
  ◌≡◌, refl, sym, ◌∙◌, ap, subst, ℕ, ◌+◌, ◌%◌, u64_mod, Bool, Option, none, List, All-mono, if-both,
}
use openrusty.Prelude.Text.{Text}
use openrusty.Prelude.Result.{Result, ok, err, >>=-eq-ok, ok_inj}
use openrusty.Config.Schema.{PluginsConfig, Config}
use openrusty.Config.Checks.{ConfigError, validate}
use openrusty.Config.Valid.{validate_iff}
use openrusty.Runtime.Pool.{UpstreamTls}
use openrusty.Runtime.Resolve.{resolve_config}
use openrusty.Runtime.Registry.{
  PluginSnapshot, RegistryError, load_plugins, build, attempt, attempts,
}
use openrusty.Runtime.Registry as Registry
use openrusty.Runtime.Reload.{
  Outside, ReloadError, load_config, publish, publish_with, publish_resolved, apply_config, rotate,
  reload, reload_loaded,
}
use openrusty.Runtime.Sound.{Leads, Known, Known-resolved, apply_runtime-Leads}
use openrusty.Runtime.{
  AppState, apply_runtime, apply_dynamic, apply_dynamic_routes, spawn, is_changed,
}

-- The runtime is of the generation of the plugins, and each of its routes leads to one of its upstreams.
abbrev pub IsSound : {M K : Type 0} → AppState M K → Type 0
IsSound state = (state.runtime.generation ≡ state.registry.generation) × Leads state.runtime

-- No other reload publishes, since the gate is held.
abbrev pub alone : ℕ → Option PluginSnapshot
alone i = none

abbrev pub next_generation : ℕ → ℕ
next_generation g = (g + 1) % u64_mod

-- A reload of the registry ends with an error and the old snapshot, or with the new one.
abbrev Settled : PluginSnapshot → PluginSnapshot × Result RegistryError ℕ → Type 0
Settled old (registry, err e) = registry ≡ old
Settled old (registry, ok generation) =
    (generation ≡ registry.generation) × (registry.generation ≡ next_generation old.generation)

attempt-Settled :
    (current : PluginSnapshot) (built : Result RegistryError PluginSnapshot)
    (again : PluginSnapshot → PluginSnapshot × Result RegistryError ℕ)
    → ((snap : PluginSnapshot)
        → built ≡ ok snap
        → snap.generation ≡ next_generation current.generation)
    → Settled current (attempt current none built again)
attempt-Settled current (err e) again next = refl
attempt-Settled current (ok snap) again next = (refl, next snap refl)

module _ {M : Type 0} (w : Outside M) where
  generation-build :
      (cfg : PluginsConfig) (current snap : PluginSnapshot)
      → build w.discover w.compile_in cfg current ≡ ok snap
      → snap.generation ≡ next_generation current.generation
  unfolding build
  generation-build cfg current snap h =
      let (names, d, h1) = >>=-eq-ok (w.discover cfg.dir) _ h in
      let (plugins, l, same) = >>=-eq-ok (load_plugins w.discover w.compile_in cfg _ _) _ h1 in
      ap (λ s. s.generation) (sym (ok_inj _ refl same))

  reload-Settled :
      (cfg : PluginsConfig) (current : PluginSnapshot)
      → Settled current (Registry.reload w.discover w.compile_in cfg alone current)
  unfolding Registry.reload attempts
  reload-Settled cfg current =
      attempt-Settled current (build w.discover w.compile_in cfg current)
        (attempts w.discover w.compile_in cfg 2 alone) (generation-build cfg current)

  -- A configuration that loads has been validated.
  load_config-Known :
      (file : Result ConfigError Config) (env : Option Text) (cfg : Config)
      → load_config w file env ≡ ok cfg
      → Known cfg.upstreams cfg.routes
  unfolding load_config
  load_config-Known file env cfg h =
      let (parsed, read, rest) = >>=-eq-ok file _ h in
      let (u, valid, same) = >>=-eq-ok (validate w.to_socket_addrs _) (λ _. ok _) rest in
      subst (λ c. Known c.upstreams c.routes) (ok_inj _ refl same)
        (All-mono _ _ (λ route v. v.known) _ ((validate_iff w.to_socket_addrs _).0 valid).routes)

  module _ {K : Type 0} where
    -- The part of a state that counts here: a sound one, of a generation, with the static configuration.
    abbrev pub After : AppState M K → ℕ → AppState M K → Type 0
    After before generation after =
        IsSound after
        × (after.static_config ≡ before.static_config)
        × (after.registry.generation ≡ generation)

    -- A reload that fails leaves the state; one that succeeds leaves a sound one of the next generation,
    -- and the static configuration.
    abbrev pub Outcome {ℓ κ} :
        {E : Type ℓ} {A : Type κ} → AppState M K → AppState M K × Result E A → Type 0
    Outcome before (after, err e) = after ≡ before
    Outcome before (after, ok a) = After before (next_generation before.registry.generation) after

    dynamic-After :
        (before state : AppState M K) (g : ℕ) (cfg : Config)
        → After before g state
        → After before g (spawn (apply_dynamic_routes (apply_dynamic state cfg) cfg))
    unfolding spawn apply_dynamic_routes apply_dynamic
    dynamic-After before state g cfg h =
        if-both (λ s. After before g (spawn (apply_dynamic_routes s cfg)))
          (is_changed state.dynamic cfg.dynamic) h h

    pub started-After :
        (state : AppState M K) (cfg : Config) (plans : List (Text × UpstreamTls M))
        → Known cfg.upstreams cfg.routes
        → After state state.registry.generation
            (apply_runtime w.string_of w.show state cfg state.registry.generation plans)
    unfolding apply_runtime
    started-After state cfg plans known = (
      (
        refl,
        apply_runtime-Leads w.string_of w.show state cfg state.registry.generation plans known,
      ),
      refl,
      refl,
    )

    publish_with-Outcome :
        (state : AppState M K) (cfg : Config) (plans : List (Text × UpstreamTls M))
        (reloaded : PluginSnapshot × Result RegistryError ℕ)
        → Known cfg.upstreams cfg.routes
        → Settled state.registry reloaded
        → Outcome state (publish_with w state cfg plans reloaded)
    publish_with-Outcome state cfg plans (registry, err x) known h =
        ap (λ r. record state { registry = r }) h
    publish_with-Outcome state cfg plans (registry, ok generation) known h =
        let (sound, static, same) =
          started-After (record state { registry = registry }) cfg plans known in
        dynamic-After state _ (next_generation state.registry.generation) cfg (
          subst
            (λ g.
              After state (next_generation state.registry.generation) (
                apply_runtime w.string_of w.show (record state { registry = registry }) cfg g
                  plans))
            (sym h.0) (sound, static, same ∙ h.1))

    publish_resolved-Outcome :
        (state : AppState M K) (cfg : Config) (plans : Result Text (List (Text × UpstreamTls M)))
        → Known cfg.upstreams cfg.routes
        → Outcome state (publish_resolved w alone state cfg plans)
    publish_resolved-Outcome state cfg (err x) known = refl
    publish_resolved-Outcome state cfg (ok plans) known =
        publish_with-Outcome state cfg plans _ known (reload-Settled cfg.plugins state.registry)

    publish-Outcome :
        (state : AppState M K) (cfg : Config)
        → Known cfg.upstreams cfg.routes
        → Outcome state (publish w alone state cfg)
    unfolding publish
    publish-Outcome state cfg known =
        publish_resolved-Outcome state (resolve_config w.lookup_host cfg) _
          (Known-resolved w.lookup_host cfg known)

    pub apply_config-Outcome :
        (held : Bool) (state : AppState M K) (cfg : Config)
        → Known cfg.upstreams cfg.routes
        → Outcome state (apply_config w held alone state cfg)
    unfolding apply_config
    apply_config-Outcome held state cfg known =
        if-both (Outcome state) held refl (publish-Outcome state cfg known)

    rotate-Outcome :
        (before : AppState M K) (cfg : Config) (run : AppState M K × Result ReloadError ℕ)
        → Outcome before run
        → Outcome before (rotate w cfg run)
    rotate-Outcome before cfg (state, err x) h = h
    rotate-Outcome before cfg (state, ok g) h = h

    reload_loaded-Outcome :
        (state : AppState M K) (loaded : Result ConfigError Config)
        → ((cfg : Config) → loaded ≡ ok cfg → Known cfg.upstreams cfg.routes)
        → Outcome state (reload_loaded w alone state loaded)
    reload_loaded-Outcome state (err x) known = refl
    reload_loaded-Outcome state (ok cfg) known =
        rotate-Outcome state cfg (publish w alone state cfg)
          (publish-Outcome state cfg (known cfg refl))

    -- A reload of the file, while no other reload runs, that fails, at the gate, the file, the validation, the
    -- TLS material or a plugin, leaves the whole state as it was; one that succeeds leaves the plugins of
    -- the next generation, a runtime of that generation whose routes all lead to upstreams that it has, and
    -- the static configuration of before.
    pub reload-Outcome :
        (held : Bool) (file : Result ConfigError Config) (env : Option Text) (state : AppState M K)
        → Outcome state (reload w held alone file env state)
    unfolding reload
    reload-Outcome held file env state =
        if-both (Outcome state) held refl
          (reload_loaded-Outcome state (load_config w file env) (load_config-Known file env))
