-- ===== src/Config/Valid.antt =====
-- The whole of `validate` of crates/openrusty-core/src/config.rs, by the conditions on its sections.
use openrusty.Prelude.{
  ◌≡◌, ◌↔◌, ◌⊎◌, inl, inr, refl, ◌<◌, Bool, true, false, not, ◌&&◌, Option, List, [], ◌∷◌, ◌==◌,
  if◌then◌else◌, is_some, contains, NoRepeat, map, All, list_eq, nat_eq, pair_eq, arith,
}
use openrusty.Prelude.Text.{Text, trim, is_empty}
use openrusty.Prelude.Result.{ok, refuse, ◌>>◌, refuse_iff, >>-iff, each_from_iff}
use openrusty.Health.Data.{SocketAddr, addr_eq}
use openrusty.Config.Schema.{role_eq, EgressConfig, Config}
use openrusty.Config.{validate_listeners}
use openrusty.Config.Listeners.{WellFormed, validate_listeners_iff}
use openrusty.Config.Checks.{
  ConfigError, is_gateway, resolve_gateway, validate_egress, check_route, levels, validate,
}
use openrusty.Config.Accepted.{
  Filled, IfSome, ValidUpstream, ValidRoute, zero_iff, not_iff, check_upstreams_iff,
  check_route_iff,
}
use openrusty.Config.Sections.{
  ValidDynamic, ValidIngress, validate_section_iff, listener_check_iff, validate_ingress_iff,
  check_order_iff,
}

module _ (to_socket_addrs : Text → Option (List SocketAddr)) where
  -- A gateway is named and resolves, where the mode needs one.
  abbrev pub ValidEgress : EgressConfig → Type 0
  ValidEgress cfg =
      (is_gateway cfg.mode ≡ false)
      ⊎ (Filled cfg.gateway × (is_some (resolve_gateway to_socket_addrs cfg) ≡ true))

  -- What the sections are to satisfy, and that names do not repeat and routes lead somewhere.
  pub record ValidConfig (cfg : Config) : Type 0 where
    pub level : contains levels cfg.server.log_level ≡ true
    pub plugin_timeout : 0 < cfg.plugins.timeout_ms
    pub plugin_memory : 0 < cfg.plugins.max_memory_mb
    pub dynamic : IfSome ValidDynamic cfg.dynamic
    pub roles : NoRepeat [] (map (λ l. l.role) cfg.server.listeners)
    pub addresses : NoRepeat [] (map (λ l. l.listen) cfg.server.listeners)
    pub listeners : All (WellFormed cfg.ingress.enabled) cfg.server.listeners
    pub ingress : ValidIngress cfg.ingress
    pub egress : ValidEgress cfg.egress
    pub order : NoRepeat [] cfg.plugins.order
    pub names : NoRepeat [] (map (λ up. up.name) cfg.upstreams)
    pub upstreams : All ValidUpstream cfg.upstreams
    pub routes : All (ValidRoute cfg.upstreams) cfg.routes

  egress_iff :
      (b named : Bool) (found : Bool) (e f : ConfigError)
      → ((if b then (refuse named e >> refuse (not found) f) else ok tt) ≡ ok tt)
        ↔ ((b ≡ false) ⊎ ((named ≡ false) × (found ≡ true)))
  egress_iff false named found e f = (λ h. inl refl, λ h. refl)
  egress_iff true true found e f = (λ h. absurd cc, λ h. ground (arith, h))
  egress_iff true false true e f = (λ h. inr (refl, refl), λ h. refl)
  egress_iff true false false e f = (λ h. absurd cc, λ h. ground (arith, h))

  -- A route that leads to a known upstream shows that there are upstreams.
  some_upstream :
      (cfg : Config)
      → All (ValidRoute cfg.upstreams) cfg.routes
      → (is_empty cfg.upstreams && not (is_empty cfg.routes)) ≡ false
  some_upstream cfg h = go cfg.upstreams cfg.routes h
    where
      go :
          (ups : _) (routes : _)
          → All (ValidRoute ups) routes
          → (is_empty ups && not (is_empty routes)) ≡ false
      go [] [] h = refl
      go [] (route ∷ routes) h = absurd (differ h.0.known)
        where
          differ : false ≡ true → ⊥
          differ e = cc
      go (up ∷ ups) routes h = refl

  -- Validation accepts exactly the configurations whose level is known, whose limits are positive, whose
  -- listeners, upstreams, plugins and bindings do not repeat and are well-formed, and whose routes are
  -- rooted, have no blank host and lead to an upstream that the configuration declares.
  pub validate_iff : (cfg : Config) → (validate to_socket_addrs cfg ≡ ok tt) ↔ ValidConfig cfg
  unfolding validate validate_egress
  validate_iff cfg =
      let c =
        >>-iff _ _
          (>>-iff _ _
            (>>-iff _ _
              (>>-iff _ _
                (>>-iff _ _
                  (>>-iff _ _
                    (>>-iff _ _
                      (>>-iff _ _
                        (>>-iff _ _
                          (>>-iff _ _ (refuse_iff (not (contains levels cfg.server.log_level)) _)
                            (refuse_iff (cfg.plugins.timeout_ms == 0) _))
                          (refuse_iff (cfg.plugins.max_memory_mb == 0) _))
                        (validate_section_iff cfg.dynamic))
                      (listener_check_iff (validate_listeners cfg)))
                    (validate_ingress_iff cfg.ingress))
                  (egress_iff (is_gateway cfg.egress.mode) (is_empty (trim cfg.egress.gateway))
                    (is_some (resolve_gateway to_socket_addrs cfg.egress)) _ _))
                (check_order_iff [] cfg.plugins.order))
              (refuse_iff (is_empty cfg.upstreams && not (is_empty cfg.routes)) _))
            (check_upstreams_iff [] cfg.upstreams))
          (each_from_iff (check_route cfg.upstreams) (ValidRoute cfg.upstreams)
            (check_route_iff cfg.upstreams) 0 cfg.routes) in
      (
        (λ e.
            let ((((((((((l, t), m), d), ls), i), g), o), s), (n, us)), rs) = c.0 e in
            let (roles, addrs, formed) = (validate_listeners_iff cfg).0 ls in
            record {
              level = (not_iff _).0 l;
              plugin_timeout = (zero_iff _).0 t;
              plugin_memory = (zero_iff _).0 m;
              dynamic = d;
              roles = roles;
              addresses = addrs;
              listeners = formed;
              ingress = i;
              egress = g;
              order = o;
              names = n;
              upstreams = us;
              routes = rs;
            }),
        (λ v. c.1 (
          (
            (
              (
                (
                  (
                    (
                      (
                        (
                          ((not_iff _).1 v.level, (zero_iff _).1 v.plugin_timeout),
                          (zero_iff _).1 v.plugin_memory,
                        ),
                        v.dynamic,
                      ),
                      (validate_listeners_iff cfg).1 (v.roles, v.addresses, v.listeners),
                    ),
                    v.ingress,
                  ),
                  v.egress,
                ),
                v.order,
              ),
              some_upstream cfg v.routes,
            ),
            (v.names, v.upstreams),
          ),
          v.routes,
        )),
      )
