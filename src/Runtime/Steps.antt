-- ===== src/Runtime/Steps.antt =====
-- The runtime under every sequence of reloads of reload.rs and applications of ingress/mod.rs in
-- crates/openrusty-server/src, from the boot of state.rs.
use openrusty.Prelude.{
  ◌≡◌, refl, sym, ap, ◌∙◌, subst, ℕ, ◌+◌, ◌≤◌, ◌<◌, u64_mod, arith, Bool, Option, none, some, List,
  All-mono,
}
use openrusty.Prelude.Text.{Text}
use openrusty.Prelude.Result.{Result, ok, err, >>=-eq-ok, ok_inj}
use openrusty.Config.Schema.{Config}
use openrusty.Config.Checks.{ConfigError, validate}
use openrusty.Config.Valid.{validate_iff}
use openrusty.Routing.{RouteConfig}
use openrusty.Kube.{Ingress, Secret}
use openrusty.Kube.Snapshot.{Snapshot}
use openrusty.Runtime.Registry.{PluginSnapshot, RegistryError, build, attempt, attempts}
use openrusty.Runtime.Registry as Registry
use openrusty.Runtime.Reload.{Outside, apply_config, reload}
use openrusty.Runtime.Apply.{Rejection, Plan, plan_pair, apply_plan, apply_pair}
use openrusty.Runtime.Sound.{Leads, Known, apply_runtime-Leads}
use openrusty.Runtime.Boot.{from_config, initial, plans_or_io}
use openrusty.Runtime.{AppState, build_tls_plans, apply_runtime}
use openrusty.Runtime.Outcome.{alone, Outcome, started-After, reload-Outcome, apply_config-Outcome}
use openrusty.Runtime.Planned.{plan_pair-Known, bootstrap-generation}

-- A runtime whose routes all lead to its upstreams, and which is not newer than the plugins.
abbrev pub IsCoherent : {M K : Type 0} → AppState M K → Type 0
IsCoherent s = Leads s.runtime × (s.runtime.generation ≤ s.registry.generation)

module _ {M K : Type 0} (w : Outside M) (decode : Text → Result Text Text)
    (certified_key : Text → Text → Option K) where
  -- What the application of a plan with a generation leaves.
  abbrev Applied : AppState M K → ℕ → AppState M K × Result Rejection (Unit {0}) → Type 0
  Applied before g (after, err e) = after ≡ before
  Applied before g (after, ok a) =
      Leads after.runtime
      × (after.static_config ≡ before.static_config)
      × (after.registry ≡ before.registry)
      × (after.runtime.generation ≡ g)

  apply_plan-Applied :
      (state : AppState M K) (g : ℕ) (plan : Result Rejection (Plan M))
      → ((p : Plan M) → plan ≡ ok p → Known p.0.upstreams p.0.routes)
      → Applied state g (apply_plan w decode certified_key g state plan)
  unfolding apply_runtime
  apply_plan-Applied state g (err x) known = refl
  apply_plan-Applied state g (ok (cfg, plans, tls)) known = (
    apply_runtime-Leads w.string_of w.show state cfg g plans (known (cfg, plans, tls) refl),
    refl,
    refl,
    refl,
  )

  apply_pair-Applied :
      (static_routes : List RouteConfig) (cls : Text) (pair : Snapshot Ingress × Snapshot Secret)
      (g : ℕ) (state : AppState M K)
      → Known state.static_config.upstreams static_routes
      → Applied state g (apply_pair w decode certified_key static_routes cls pair g state)
  unfolding apply_pair
  apply_pair-Applied static_routes cls pair g state known =
      apply_plan-Applied state g (plan_pair w decode state.static_config static_routes cls pair)
        (λ plan. plan_pair-Known w decode state.static_config static_routes cls pair plan known)

  module _ (embeds : Config → Type 0) where
    -- A step of the running gateway, with the generation that the application of a pair of snapshots has
    -- read, if one is under way: a reload of the file, a configuration of the embedder, which is one of
    -- `embeds`, the read of the generation, and the publishing of the pair on the static routes. The
    -- application of a pair does not hold the gate of the reloads.
    pub data Step : AppState M K → Option ℕ → AppState M K → Option ℕ → Type 0 where
      reloaded :
          (held : Bool) (file : Result ConfigError Config) (env : Option Text) (s : AppState M K)
          (reads : Option ℕ)
          → Step s reads (reload w held alone file env s).0 reads
      applied :
          (held : Bool) (cfg : Config) (s : AppState M K) (reads : Option ℕ)
          → embeds cfg
          → Step s reads (apply_config w held alone s cfg).0 reads
      noted : (s : AppState M K) → Step s none s (some s.registry.generation)
      composed :
          (cls : Text) (pair : Snapshot Ingress × Snapshot Secret) (g : ℕ) (s : AppState M K)
          → Step s
              (some g)
              (apply_pair w decode certified_key s.static_config.routes cls pair g s).0
              none

    -- The states that the gateway comes to from its boot, by the number of steps.
    pub data Reachable (cfg : Config) : ℕ → AppState M K → Option ℕ → Type 0 where
      booted : (s : AppState M K) → from_config K w cfg ≡ ok s → Reachable cfg 0 s none
      stepped :
          (n : ℕ) (s t : AppState M K) (reads reads' : Option ℕ)
          → Reachable cfg n s reads
          → Step s reads t reads'
          → Reachable cfg (n + 1) t reads'

    -- What holds of a state after some steps.
    record Holds (cfg : Config) (n : ℕ) (s : AppState M K) (reads : Option ℕ) : Type 0 where
      leads : Leads s.runtime
      static : s.static_config ≡ cfg
      old : s.runtime.generation ≤ s.registry.generation
      few : s.registry.generation ≤ n + 1
      read : (g : ℕ) → reads ≡ some g → g ≤ s.registry.generation

    later-Holds :
        (cfg : Config) (n : ℕ) (s : AppState M K) (reads : Option ℕ)
        → Holds cfg n s reads
        → Holds cfg (n + 1) s reads
    later-Holds cfg n s reads h =
        let few = h.few in
        record { leads = h.leads; static = h.static; old = h.old; few = omega arith; read = h.read }

    outcome-Holds {ℓ κ} :
        {E : Type ℓ} {A : Type κ} (cfg : Config) (n : ℕ) (s : AppState M K) (reads : Option ℕ)
        (run : AppState M K × Result E A)
        → n + 2 < u64_mod
        → Holds cfg n s reads
        → Outcome w s run
        → Holds cfg (n + 1) run.0 reads
    outcome-Holds cfg n s reads (t, err x) small h o =
        subst (λ u. Holds cfg (n + 1) u reads) (sym o) (later-Holds cfg n s reads h)
    outcome-Holds cfg n s reads (t, ok a) small h ((same, leads), static, next) =
        let few = h.few in
        record {
          leads = leads;
          static = static ∙ h.static;
          old = omega arith;
          few = omega arith;
          read = λ g e. let before = h.read g e in omega arith;
        }

    Applied-Holds :
        (cfg : Config) (n g : ℕ) (s : AppState M K)
        (run : AppState M K × Result Rejection (Unit {0}))
        → Holds cfg n s (some g)
        → Applied s g run
        → Holds cfg (n + 1) run.0 none
    Applied-Holds cfg n g s (t, err x) h o =
        let few = h.few in
        subst (λ u. Holds cfg (n + 1) u none) (sym o)
          (record {
            leads = h.leads;
            static = h.static;
            old = h.old;
            few = omega arith;
            read = λ g' e. absurd cc;
          })
    Applied-Holds cfg n g s (t, ok a) h (leads, static, same, is_g) =
        let few = h.few in
        let before = h.read g refl in
        let kept : t.registry.generation ≡ s.registry.generation = ap (λ r. r.generation) same in
        record {
          leads = leads;
          static = static ∙ h.static;
          old = omega arith;
          few = omega arith;
          read = λ g' e. absurd cc;
        }

    step-Holds :
        (cfg : Config) (n : ℕ) (s t : AppState M K) (reads reads' : Option ℕ)
        → ((c : Config) → embeds c → Known c.upstreams c.routes)
        → Known cfg.upstreams cfg.routes
        → n + 2 < u64_mod
        → Holds cfg n s reads
        → Step s reads t reads'
        → Holds cfg (n + 1) t reads'
    step-Holds cfg n s t reads reads' sane known small h (reloaded held file env u f) =
        outcome-Holds cfg n u f _ small h (reload-Outcome w held file env u)
    step-Holds cfg n s t reads reads' sane known small h (applied held c u f e) =
        outcome-Holds cfg n u f _ small h (apply_config-Outcome w held u c (sane c e))
    step-Holds cfg n s t reads reads' sane known small h (noted u) =
        let few = h.few in
        record {
          leads = h.leads;
          static = h.static;
          old = h.old;
          few = omega arith;
          read = λ g e. let same : u.registry.generation ≡ g = cc in omega arith;
        }
    step-Holds cfg n s t reads reads' sane known small h (composed cls pair g u) =
        Applied-Holds cfg n g u _ h (
          apply_pair-Applied u.static_config.routes cls pair g u
            (subst (λ c. Known c.upstreams c.routes) (sym h.static) known))

    boot-Holds :
        (cfg : Config) (s : AppState M K)
        → Known cfg.upstreams cfg.routes
        → from_config K w cfg ≡ ok s
        → Holds cfg 0 s none
    unfolding from_config
    boot-Holds cfg s known h =
        let (plans, p, h1) = >>=-eq-ok (plans_or_io K w (build_tls_plans w.build_tls cfg)) _ h in
        let (registry, r, same) =
          >>=-eq-ok (Registry.bootstrap w.discover w.compile_in cfg.plugins) _ h1 in
        let ((equal, leads), static, next) =
          started-After w (initial K w cfg registry) cfg plans known in
        let young = bootstrap-generation w.discover w.compile_in cfg.plugins registry r in
        subst (λ u. Holds cfg 0 u none) (ok_inj _ refl same)
          (record {
            leads = leads;
            static = static;
            old = omega arith;
            few = omega arith;
            read = λ g e. absurd cc;
          })

    Reachable-Holds :
        (cfg : Config) (n : ℕ) (s : AppState M K) (reads : Option ℕ)
        → ((c : Config) → embeds c → Known c.upstreams c.routes)
        → Known cfg.upstreams cfg.routes
        → n + 1 < u64_mod
        → Reachable cfg n s reads
        → Holds cfg n s reads
    Reachable-Holds cfg _ s reads sane known small (booted u h) = boot-Holds cfg u known h
    Reachable-Holds cfg _ s reads sane known small (stepped n u t f f' r step) =
        step-Holds cfg n u t f f' sane known (omega arith)
          (Reachable-Holds cfg n u f sane known (omega arith) r) step

    validate-Known :
        (cfg : Config) → validate w.to_socket_addrs cfg ≡ ok tt → Known cfg.upstreams cfg.routes
    validate-Known cfg valid =
        All-mono _ _ (λ route v. v.known) cfg.routes
          ((validate_iff w.to_socket_addrs cfg).0 valid).routes

    -- From the boot of a validated configuration, through every sequence of fewer than 2 ^ 64 - 1 steps, which
    -- are reloads, configurations of an embedder and the two steps of applications of cluster snapshots,
    -- with reloads between these two and failures included, every route of the published runtime leads to
    -- an upstream that it has, and the runtime is not of a later generation than the plugins. The embedder is
    -- taken to validate what it applies, which `apply_config` does not do.
    pub Reachable-IsCoherent :
        (cfg : Config) (n : ℕ) (s : AppState M K) (reads : Option ℕ)
        → ((c : Config) → embeds c → validate w.to_socket_addrs c ≡ ok tt)
        → validate w.to_socket_addrs cfg ≡ ok tt
        → n + 1 < u64_mod
        → Reachable cfg n s reads
        → IsCoherent s
    Reachable-IsCoherent cfg n s reads sane valid small r =
        let h =
          Reachable-Holds cfg n s reads (λ c e. validate-Known c (sane c e))
            (validate-Known cfg valid) small r in
        (h.leads, h.old)
