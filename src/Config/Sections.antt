-- ===== src/Config/Sections.antt =====
-- What `validate` of crates/openrusty-core/src/config.rs asks of the dynamic API, of the ingress section
-- and of the order of the plugins.
use openrusty.Prelude.{
  ◌≡◌, ◌↔◌, refl, ◌<◌, ℕ, true, false, not, Option, none, some, List, [], ◌∷◌, ◌==◌, is_some,
  contains, NoRepeat, map, All, list_eq, nat_eq, pair_eq,
}
use openrusty.Prelude.Text.{Text, trim, is_empty}
use openrusty.Prelude.Result.{Result, ok, err, refuse_iff, >>-iff, each_from_iff}
use openrusty.Health.Data.{addr_eq}
use openrusty.Dynamic.{DynamicRoute, normalize_method, normalize_route_path, valid_module_name}
use openrusty.Config.Schema.{role_eq, DynamicConfig, IngressConfig}
use openrusty.Config.{Fault}
use openrusty.Config.Checks.{
  check_binding, check_bindings, route_slot, check_setting, validate_dynamic, validate_section,
  listener_check, check_namespace, validate_ingress, check_order,
}
use openrusty.Config.Accepted.{Filled, IfSome, zero_iff, not_iff}

pub record ValidBinding (r : DynamicRoute) : Type 0 where
  pub method : is_some (normalize_method r.method) ≡ true
  pub path : is_some (normalize_route_path r.path) ≡ true
  pub target : valid_module_name r.target ≡ true

pub record ValidDynamic (d : DynamicConfig) : Type 0 where
  pub timeout : 0 < d.timeout_ms
  pub memory : 0 < d.max_memory_mb
  pub body : 0 < d.max_body_bytes
  pub dir : Filled d.dir
  pub settings : All (λ setting. valid_module_name setting.0 ≡ true) d.settings
  pub slots : NoRepeat [] (map route_slot d.routes)
  pub bindings : All ValidBinding d.routes

pub record ValidIngress (cfg : IngressConfig) : Type 0 where
  pub cls : Filled cfg.ingress_class
  pub namespaces : All Filled cfg.namespaces

check_binding_iff :
    (seen : List (Text × Text)) (r : DynamicRoute)
    → (check_binding seen r ≡ ok tt) ↔ ((contains seen (route_slot r) ≡ false) × ValidBinding r)
check_binding_iff seen r =
    let c =
      >>-iff _ _
        (>>-iff _ _
          (>>-iff _ _ (refuse_iff (not (is_some (normalize_method r.method))) _)
            (refuse_iff (not (is_some (normalize_route_path r.path))) _))
          (refuse_iff (not (valid_module_name r.target)) _))
        (refuse_iff (contains seen (route_slot r)) _) in
    (
      (λ e.
          let (((m, p), t), s) = c.0 e in
          (
            s,
            record { method = (not_iff _).0 m; path = (not_iff _).0 p; target = (not_iff _).0 t },
          )),
      (λ (s, v). c.1 ((((not_iff _).1 v.method, (not_iff _).1 v.path), (not_iff _).1 v.target), s)),
    )

check_bindings_iff :
    (seen : List (Text × Text)) (routes : List DynamicRoute)
    → (check_bindings seen routes ≡ ok tt)
      ↔ (NoRepeat seen (map route_slot routes) × All ValidBinding routes)
check_bindings_iff seen [] = (λ e. (tt, tt), λ h. refl)
check_bindings_iff seen (r ∷ routes) =
    let c =
      >>-iff _ _ (check_binding_iff seen r) (check_bindings_iff (route_slot r ∷ seen) routes) in
    (
      (λ e. let ((s, v), (n, vs)) = c.0 e in ((s, n), (v, vs))),
      (λ ((s, n), (v, vs)). c.1 ((s, v), (n, vs))),
    )

check_setting_iff :
    (i : ℕ) (setting : Text × List (Text × Text))
    → (check_setting i setting ≡ ok tt) ↔ (valid_module_name setting.0 ≡ true)
check_setting_iff i (key, values) =
    let c = refuse_iff (not (valid_module_name key)) _ in
    ((λ e. (not_iff _).0 (c.0 e)), (λ h. c.1 ((not_iff _).1 h)))

pub validate_section_iff :
    (dynamic : Option DynamicConfig)
    → (validate_section dynamic ≡ ok tt) ↔ IfSome ValidDynamic dynamic
unfolding validate_dynamic
validate_section_iff none = (λ e. tt, λ h. refl)
validate_section_iff (some d) =
    let c =
      >>-iff _ _
        (>>-iff _ _
          (>>-iff _ _
            (>>-iff _ _
              (>>-iff _ _ (refuse_iff (d.timeout_ms == 0) _) (refuse_iff (d.max_memory_mb == 0) _))
              (refuse_iff (d.max_body_bytes == 0) _))
            (refuse_iff (is_empty (trim d.dir)) _))
          (each_from_iff check_setting _ check_setting_iff 0 d.settings))
        (check_bindings_iff [] d.routes) in
    (
      (λ e.
          let (((((t, m), b), dir), s), (n, v)) = c.0 e in
          record {
            timeout = (zero_iff _).0 t;
            memory = (zero_iff _).0 m;
            body = (zero_iff _).0 b;
            dir = dir;
            settings = s;
            slots = n;
            bindings = v;
          }),
      (λ v. c.1 (
        (
          ((((zero_iff _).1 v.timeout, (zero_iff _).1 v.memory), (zero_iff _).1 v.body), v.dir),
          v.settings,
        ),
        (v.slots, v.bindings),
      )),
    )

pub listener_check_iff :
    (found : Result (ℕ × Fault) (Unit {0})) → (listener_check found ≡ ok tt) ↔ (found ≡ ok tt)
listener_check_iff (ok tt) = (λ e. refl, λ e. refl)
listener_check_iff (err e) = (λ h. absurd cc, λ h. absurd cc)

pub validate_ingress_iff : (cfg : IngressConfig) → (validate_ingress cfg ≡ ok tt) ↔ ValidIngress cfg
unfolding validate_ingress
validate_ingress_iff cfg =
    let c = >>-iff _ _ (refuse_iff (is_empty (trim cfg.ingress_class)) _) (
      each_from_iff check_namespace Filled (λ i ns. refuse_iff (is_empty (trim ns)) _) 0
        cfg.namespaces) in
    (
      (λ e. let (k, ns) = c.0 e in record { cls = k; namespaces = ns }),
      (λ v. c.1 (v.cls, v.namespaces)),
    )

pub check_order_iff :
    (seen names : List Text) → (check_order seen names ≡ ok tt) ↔ NoRepeat seen names
check_order_iff seen [] = (λ e. tt, λ h. refl)
check_order_iff seen (name ∷ names) =
    >>-iff _ _ (refuse_iff (contains seen name) _) (check_order_iff (name ∷ seen) names)
