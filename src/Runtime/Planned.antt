-- ===== src/Runtime/Planned.antt =====
-- The upstreams and routes of the configuration that crates/openrusty-server/src/ingress/mod.rs composes,
-- and the generation that the registry starts with.
use openrusty.Prelude.{◌≡◌, refl, sym, ap, subst, ◌≤◌, arith, Bool, List, [], ◌∷◌}
use openrusty.Prelude.Text.{Text}
use openrusty.Prelude.Result.{Result, ok, err, >>=-eq-ok, ok_inj}
use openrusty.Config.Schema.{PluginsConfig, Config}
use openrusty.Routing.{RouteConfig}
use openrusty.Kube.{Ingress, Secret}
use openrusty.Kube.Snapshot.{Snapshot}
use openrusty.Kube.Render.{render_routes, render_upstreams}
use openrusty.Kube.Tls.{TlsPair, render_tls}
use openrusty.Kube.Merge.{merge}
use openrusty.Runtime.Resolve.{resolve_config}
use openrusty.Runtime.Registry.{PluginSnapshot, RegistryError, build, attempt, attempts}
use openrusty.Runtime.Registry as Registry
use openrusty.Runtime.Reload.{Outside}
use openrusty.Runtime.Apply.{
  build_ingress_config, Rejection, no_tls, rejecting, plan_of, Plan, plan_pair,
}
use openrusty.Runtime.Sound.{Known, Known-resolved}
use openrusty.Runtime.Composed.{composed-Known}
use openrusty.Runtime.{build_tls_plans}

rejecting-ok {ℓ κ} :
    {E : Type ℓ} {A : Type κ} (f : E → Rejection) (r : Result E A) {a : A}
    → rejecting f r ≡ ok a
    → r ≡ ok a
rejecting-ok f (ok b) h = ap ok (ok_inj _ refl h)
rejecting-ok f (err x) h = absurd cc

plan_of-config :
    {M : Type 0} (w : Outside M) (decode : Text → Result Text Text) (composed : Config)
    (tls : List (Text × TlsPair)) (plan : Plan M)
    → plan_of w decode composed tls ≡ ok plan
    → plan.0 ≡ resolve_config w.lookup_host composed
plan_of-config w decode composed tls plan h =
    let (plans, p, same) =
      >>=-eq-ok
        (rejecting no_tls (build_tls_plans w.build_tls (resolve_config w.lookup_host composed)))
        (λ plans. ok (resolve_config w.lookup_host composed, plans, tls)) h in
    ap (λ p. p.0) (ok_inj _ same refl)

pub plan_pair-Known :
    {M : Type 0} (w : Outside M) (decode : Text → Result Text Text) (base : Config)
    (static_routes : List RouteConfig) (cls : Text) (pair : Snapshot Ingress × Snapshot Secret)
    (plan : Plan M)
    → Known base.upstreams static_routes
    → plan_pair w decode base static_routes cls pair ≡ ok plan
    → Known plan.0.upstreams plan.0.routes
unfolding plan_pair
plan_pair-Known {M = M} w decode base static_routes cls (ingresses, secrets) plan known h =
    let (rendered, r, h1) = >>=-eq-ok (rejecting _ (render_routes ingresses cls)) _ h in
    let (upstreams, u, h2) = >>=-eq-ok (rejecting _ (render_upstreams ingresses cls)) _ h1 in
    let (tls, t, h3) = >>=-eq-ok (rejecting _ (render_tls decode ingresses secrets cls)) _ h2 in
    let (routes, m, h4) = >>=-eq-ok (rejecting _ (merge static_routes rendered)) _ h3 in
    subst (λ c. Known c.upstreams c.routes)
      (sym (plan_of-config w decode (build_ingress_config base routes upstreams) tls plan h4))
      (Known-resolved w.lookup_host (build_ingress_config base routes upstreams) (
        composed-Known base static_routes ingresses cls rendered routes upstreams known
          (rejecting-ok _ _ r) (rejecting-ok _ _ u) (rejecting-ok _ _ m)))

pub bootstrap-generation :
    (discover : Text → Result RegistryError (List Text))
    (compile_in : Text → Text → Result RegistryError Bool) (cfg : PluginsConfig)
    (snap : PluginSnapshot)
    → Registry.bootstrap discover compile_in cfg ≡ ok snap
    → snap.generation ≤ 1
unfolding Registry.bootstrap
bootstrap-generation discover compile_in cfg snap h = go (discover cfg.dir) h
  where
    go :
        (found : Result RegistryError (List Text))
        → Registry.boot_with discover compile_in cfg found ≡ ok snap
        → snap.generation ≤ 1
    go (err e) same = subst (λ s. s.generation ≤ 1) (ok_inj _ refl same) (omega arith)
    go (ok []) same = subst (λ s. s.generation ≤ 1) (ok_inj _ refl same) (omega arith)
    go (ok (name ∷ names)) same =
        let (plugins, l, built) =
          >>=-eq-ok (Registry.load_plugins discover compile_in cfg _ _) _ same in
        subst (λ s. s.generation ≤ 1) (ok_inj _ refl built) (omega arith)
