-- ===== src/Transparent/Safe.antt =====
-- Where a connection of crates/openrusty-server/src/transparent.rs and egress.rs may go, and with which
-- bytes.
use openrusty.Prelude.{
  ℕ, ◌≡◌, refl, ap, sym, subst, inl, inr, Bool, true, false, Option, none, some, List, [], ◌∷◌,
  ◌==◌, arith, All, if◌then◌else◌,
}
use openrusty.Health.Data.{SocketAddr}
use openrusty.Transparent.{Protocol, Read, Detected, settled, cut, broken, detect}
use openrusty.Transparent.Received.{received, stream, detect-received}
use openrusty.Transparent.Conn.{
  ListenerRole, EgressMode, ListenerConfig, EgressPlane, Client, bare, prefixed, Outcome, Effect,
  counted, tunnelled, is_loopback, tunnel_to,
}
use openrusty.Transparent.Egress.{
  EgressStep, EgressDenyReason, after_sniff, route_egress, forward_to_gateway, run_outbound,
  sniffed, first_pass,
}
use openrusty.Transparent.Split.{
  route_pre, route_http, handle_conn, inbound_sniffed, take_step, Step, RejectReason, role_step,
}
use openrusty.Transparent.Allowed.{is_outbound, dials_orig_of_local, MayDial, Allowed}

module _ (connects : SocketAddr → Bool) (cfg : ListenerConfig) (plane : EgressPlane)
    (own_ports : List ℕ) (orig : Option SocketAddr) (reads : List Read) where
  abbrev AllAllowed : List Effect → Type 0
  AllAllowed effects = All (Allowed connects cfg plane own_ports orig reads) effects

  tunnel_to-Allowed :
      (client : Client) (a : SocketAddr)
      → MayDial cfg plane own_ports orig a
      → stream client ≡ received reads
      → AllAllowed (tunnel_to connects client a)
  unfolding tunnel_to
  tunnel_to-Allowed client a may whole = (may, tunnel_if (connects a) refl)
    where
      tunnel_if :
          (b : Bool) → connects a ≡ b → AllAllowed (if b then tunnelled a client ∷ [] else [])
      tunnel_if true reached = ((may, reached, whole), tt)
      tunnel_if false missed = tt

  forward_to_gateway-Allowed :
      (client : Client) (addr : Option SocketAddr)
      → plane.gateway ≡ addr
      → cfg.role ≡ ListenerRole.outbound
      → plane.egress.mode ≡ EgressMode.gateway
      → stream client ≡ received reads
      → AllAllowed (forward_to_gateway connects client addr)
  unfolding forward_to_gateway
  forward_to_gateway-Allowed client none g role mode whole = (sym role, tt)
  forward_to_gateway-Allowed client (some a) g role mode whole = (may, forward_if (connects a) refl)
    where
      may : MayDial cfg plane own_ports orig a
      may = inr (role, mode, g)

      forward_if :
          (b : Bool)
          → connects a ≡ b
          → AllAllowed (
              if b
              then counted ListenerRole.outbound Outcome.egress_gateway_ok ∷ tunnelled a client ∷ []
              else counted ListenerRole.outbound Outcome.egress_gateway_fail ∷ [])
      forward_if true reached = (sym role, ((may, reached, whole), tt))
      forward_if false missed = (sym role, tt)

  sniffed-Allowed :
      (dst : SocketAddr) (d : Detected)
      → detect reads ≡ d
      → cfg.role ≡ ListenerRole.outbound
      → plane.egress.mode ≡ EgressMode.gateway
      → AllAllowed (sniffed connects plane dst d)
  unfolding route_egress
  sniffed-Allowed dst (settled protocol prefix left) e role mode =
      subst
        (λ m.
          AllAllowed (
            after_sniff connects plane (prefixed prefix left) (route_egress m (some protocol) dst)))
        (sym mode) (by_protocol protocol (detect-received reads protocol prefix left e))
    where
      by_port :
          (b : Bool)
          → stream (prefixed prefix left) ≡ received reads
          → AllAllowed (
              after_sniff connects plane
                (prefixed prefix left)
                (if b then EgressStep.deny EgressDenyReason.tls_port else EgressStep.gateway dst))
      by_port true whole = (sym role, tt)
      by_port false whole =
          forward_to_gateway-Allowed (prefixed prefix left) plane.gateway refl role mode whole

      by_protocol :
          (p : Protocol)
          → stream (prefixed prefix left) ≡ received reads
          → AllAllowed (
              after_sniff connects plane
                (prefixed prefix left)
                (route_egress EgressMode.gateway (some p) dst))
      by_protocol Protocol.opaque whole = (sym role, tt)
      by_protocol Protocol.h1 whole = by_port (dst.port == 443) whole
      by_protocol Protocol.h2 whole = by_port (dst.port == 443) whole
  sniffed-Allowed dst cut e role mode = tt
  sniffed-Allowed dst broken e role mode = tt

  run_outbound-Allowed :
      (dst : SocketAddr)
      → orig ≡ some dst
      → is_loopback dst own_ports ≡ false
      → cfg.role ≡ ListenerRole.outbound
      → AllAllowed (run_outbound connects plane reads dst)
  unfolding run_outbound route_egress
  run_outbound-Allowed dst here far role = by_mode plane.egress.mode refl
    where
      by_mode :
          (m : EgressMode)
          → plane.egress.mode ≡ m
          → AllAllowed (first_pass connects plane reads (route_egress m none dst))
      by_mode EgressMode.direct mode = (
        sym role,
        tunnel_to-Allowed (bare reads) dst (inl (here, far, ground (arith, role, mode))) refl,
      )
      by_mode EgressMode.deny mode = (sym role, tt)
      by_mode EgressMode.gateway mode = sniffed-Allowed dst (detect reads) refl role mode

  inbound_sniffed-Allowed :
      (dst : SocketAddr) (d : Detected)
      → detect reads ≡ d
      → orig ≡ some dst
      → is_loopback dst own_ports ≡ false
      → is_outbound cfg.role ≡ false
      → AllAllowed (inbound_sniffed connects cfg.role dst d)
  unfolding route_http
  inbound_sniffed-Allowed dst (settled Protocol.opaque prefix left) e here far role = (
    refl,
    tunnel_to-Allowed (prefixed prefix left) dst
        (inl (here, far, dials_orig_of_local cfg.role plane.egress.mode role))
        (detect-received reads Protocol.opaque prefix left e),
  )
  inbound_sniffed-Allowed dst (settled Protocol.h1 prefix left) e here far role =
      (refl, ((role, detect-received reads Protocol.h1 prefix left e), tt))
  inbound_sniffed-Allowed dst (settled Protocol.h2 prefix left) e here far role =
      (refl, ((role, detect-received reads Protocol.h2 prefix left e), tt))
  inbound_sniffed-Allowed dst cut e here far role = tt
  inbound_sniffed-Allowed dst broken e here far role = tt

  role_step-Allowed :
      (dst : SocketAddr) (role : ListenerRole)
      → cfg.role ≡ role
      → orig ≡ some dst
      → is_loopback dst own_ports ≡ false
      → AllAllowed (take_step connects cfg plane reads (role_step role dst))
  role_step-Allowed dst ListenerRole.outbound e here far = run_outbound-Allowed dst here far e
  role_step-Allowed dst ListenerRole.inbound e here far =
      inbound_sniffed-Allowed dst (detect reads) refl here far (ap is_outbound e)
  role_step-Allowed dst ListenerRole.admin e here far =
      inbound_sniffed-Allowed dst (detect reads) refl here far (ap is_outbound e)

  without_dst-Allowed :
      (role : ListenerRole)
      → cfg.role ≡ role
      → AllAllowed (take_step connects cfg plane reads (route_pre role none own_ports))
  unfolding route_pre
  without_dst-Allowed ListenerRole.outbound e = (refl, tt)
  without_dst-Allowed ListenerRole.inbound e = (refl, ((ap is_outbound e, refl), tt))
  without_dst-Allowed ListenerRole.admin e = (refl, ((ap is_outbound e, refl), tt))

  with_dst-Allowed :
      (dst : SocketAddr) (b : Bool)
      → is_loopback dst own_ports ≡ b
      → orig ≡ some dst
      → AllAllowed (
          take_step connects cfg plane reads
            (if b then Step.reject RejectReason.loop else role_step cfg.role dst))
  with_dst-Allowed dst true near here = (refl, tt)
  with_dst-Allowed dst false far here = role_step-Allowed dst cfg.role refl here far

-- Whatever an intercepted connection does: it counts under the role of the listener, dials only its
-- original destination, where that is no own port and the listener is not outbound or its mode is direct,
-- or the gateway from an outbound listener in gateway mode, tunnels only where a dial succeeded, serves
-- HTTP only on a listener that is not outbound, passes on every byte of the client in both cases, and never
-- reaches an `unreachable!`.
pub handle_conn-Allowed :
    (connects : SocketAddr → Bool) (cfg : ListenerConfig) (plane : EgressPlane) (own_ports : List ℕ)
    (orig : Option SocketAddr) (reads : List Read)
    → All
        (Allowed connects cfg plane own_ports orig reads)
        (handle_conn connects cfg plane own_ports orig reads)
unfolding handle_conn route_pre
handle_conn-Allowed connects cfg plane own_ports none reads =
    without_dst-Allowed connects cfg plane own_ports none reads cfg.role refl
handle_conn-Allowed connects cfg plane own_ports (some dst) reads =
    with_dst-Allowed connects cfg plane own_ports (some dst) reads dst (is_loopback dst own_ports)
      refl refl
