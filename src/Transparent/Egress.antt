-- ===== src/Transparent/Egress.antt =====
-- crates/openrusty-server/src/egress.rs: the policy for intercepted outbound connections.
use openrusty.Prelude.{Bool, Option, none, some, List, [], ◌∷◌, ◌==◌, if◌then◌else◌}
use openrusty.Health.Data.{SocketAddr}
use openrusty.Transparent.{Protocol, Read, Detected, settled, cut, broken, detect}
use openrusty.Transparent.Conn.{
  ListenerRole, EgressMode, EgressPlane, Client, bare, prefixed, Outcome, Effect, counted, dialled,
  tunnelled, panicked, tunnel_to,
}

pub data EgressDenyReason : Type 0 where
  mode_deny opaque tls_port : EgressDenyReason

pub data EgressStep : Type 0 where
  orig sniff gateway : SocketAddr → EgressStep
  deny : EgressDenyReason → EgressStep

-- The verdict in gateway mode.
abbrev pub gateway_step : Option Protocol → SocketAddr → EgressStep
gateway_step none orig_dst = EgressStep.sniff orig_dst
gateway_step (some Protocol.opaque) orig_dst = EgressStep.deny EgressDenyReason.opaque
gateway_step (some protocol) orig_dst =
    if orig_dst.port == 443
    then EgressStep.deny EgressDenyReason.tls_port
    else EgressStep.gateway orig_dst

unfoldable pub route_egress : EgressMode → Option Protocol → SocketAddr → EgressStep
route_egress EgressMode.direct protocol orig_dst = EgressStep.orig orig_dst
route_egress EgressMode.deny protocol orig_dst = EgressStep.deny EgressDenyReason.mode_deny
route_egress EgressMode.gateway protocol orig_dst = gateway_step protocol orig_dst

abbrev pub count_outbound : Outcome → Effect
count_outbound outcome = counted ListenerRole.outbound outcome

unfoldable pub forward_to_gateway : (SocketAddr → Bool) → Client → Option SocketAddr → List Effect
forward_to_gateway connects io none = count_outbound Outcome.egress_gateway_fail ∷ []
forward_to_gateway connects io (some addr) =
    dialled addr
    ∷ (if connects addr
        then count_outbound Outcome.egress_gateway_ok ∷ tunnelled addr io ∷ []
        else count_outbound Outcome.egress_gateway_fail ∷ [])

-- The second pass of `run_outbound`, with the protocol known.
abbrev pub after_sniff : (SocketAddr → Bool) → EgressPlane → Client → EgressStep → List Effect
after_sniff connects plane io (EgressStep.gateway dst) =
    forward_to_gateway connects io plane.gateway
after_sniff connects plane io (EgressStep.deny reason) = count_outbound Outcome.egress_deny ∷ []
after_sniff connects plane io other = panicked ∷ []

abbrev pub sniffed : (SocketAddr → Bool) → EgressPlane → SocketAddr → Detected → List Effect
sniffed connects plane dst (settled protocol prefix left) =
    after_sniff connects plane (prefixed prefix left)
      (route_egress plane.egress.mode (some protocol) dst)
sniffed connects plane dst cut = []
sniffed connects plane dst broken = []

abbrev pub first_pass : (SocketAddr → Bool) → EgressPlane → List Read → EgressStep → List Effect
first_pass connects plane reads (EgressStep.orig dst) =
    count_outbound Outcome.egress_direct ∷ tunnel_to connects (bare reads) dst
first_pass connects plane reads (EgressStep.deny reason) = count_outbound Outcome.egress_deny ∷ []
first_pass connects plane reads (EgressStep.sniff dst) = sniffed connects plane dst (detect reads)
first_pass connects plane reads (EgressStep.gateway dst) = panicked ∷ []

unfoldable pub run_outbound :
    (SocketAddr → Bool) → EgressPlane → List Read → SocketAddr → List Effect
run_outbound connects plane reads orig_dst =
    first_pass connects plane reads (route_egress plane.egress.mode none orig_dst)
