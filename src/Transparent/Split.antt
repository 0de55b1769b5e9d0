-- ===== src/Transparent/Split.antt =====
-- crates/openrusty-server/src/transparent.rs: the split of intercepted connections.
use openrusty.Prelude.{ℕ, Bool, Option, none, some, List, [], ◌∷◌, if◌then◌else◌}
use openrusty.Health.Data.{SocketAddr}
use openrusty.Transparent.{Protocol, Read, Detected, settled, cut, broken, detect}
use openrusty.Transparent.Conn.{
  ListenerRole, ListenerConfig, EgressPlane, ProtoMode, proto_mode, Client, bare, prefixed, Outcome,
  Effect, counted, served, is_loopback, tunnel_to,
}
use openrusty.Transparent.Egress.{run_outbound}

pub data RejectReason : Type 0 where
  loop no_original_dst : RejectReason

pub data Step : Type 0 where
  degrade_http : Step
  sniff dial : SocketAddr → Step
  reject : RejectReason → Step

abbrev pub role_step : ListenerRole → SocketAddr → Step
role_step ListenerRole.outbound dst = Step.dial dst
role_step role dst = Step.sniff dst

unfoldable pub route_pre : ListenerRole → Option SocketAddr → List ℕ → Step
route_pre role (some dst) own_ports =
    if is_loopback dst own_ports then Step.reject RejectReason.loop else role_step role dst
route_pre ListenerRole.outbound none own_ports = Step.reject RejectReason.no_original_dst
route_pre role none own_ports = Step.degrade_http

pub data HttpStep : Type 0 where
  serve_http : ProtoMode → HttpStep
  tunnel : HttpStep

unfoldable pub route_http : Protocol → HttpStep
route_http Protocol.h1 = HttpStep.serve_http ProtoMode.force_http1
route_http Protocol.h2 = HttpStep.serve_http ProtoMode.force_http2
route_http Protocol.opaque = HttpStep.tunnel

abbrev pub reject_outcome : RejectReason → Outcome
reject_outcome RejectReason.loop = Outcome.loop_rejected
reject_outcome RejectReason.no_original_dst = Outcome.no_orig_dst

abbrev pub serve_step :
    (SocketAddr → Bool) → ListenerRole → SocketAddr → Client → HttpStep → List Effect
serve_step connects role dst io (HttpStep.serve_http mode) =
    counted role Outcome.http ∷ served mode io ∷ []
serve_step connects role dst io HttpStep.tunnel =
    counted role Outcome.tunnel ∷ tunnel_to connects io dst

-- The branch of an inbound connection after the sniff.
abbrev pub inbound_sniffed :
    (SocketAddr → Bool) → ListenerRole → SocketAddr → Detected → List Effect
inbound_sniffed connects role dst (settled protocol prefix left) =
    serve_step connects role dst (prefixed prefix left) (route_http protocol)
inbound_sniffed connects role dst cut = []
inbound_sniffed connects role dst broken = []

abbrev pub take_step :
    (SocketAddr → Bool) → ListenerConfig → EgressPlane → List Read → Step → List Effect
take_step connects cfg plane reads (Step.reject reason) =
    counted cfg.role (reject_outcome reason) ∷ []
take_step connects cfg plane reads Step.degrade_http =
    counted cfg.role Outcome.http ∷ served (proto_mode cfg.http1_only) (bare reads) ∷ []
take_step connects cfg plane reads (Step.dial dst) = run_outbound connects plane reads dst
take_step connects cfg plane reads (Step.sniff dst) =
    inbound_sniffed connects cfg.role dst (detect reads)

-- `orig` is what conntrack gives as the destination before NAT, `reads` what the peer sends before the
-- budget of the sniff is over.
unfoldable pub handle_conn :
    (SocketAddr → Bool)
    → ListenerConfig
    → EgressPlane
    → List ℕ
    → Option SocketAddr
    → List Read
    → List Effect
handle_conn connects cfg plane own_ports orig reads =
    take_step connects cfg plane reads (route_pre cfg.role orig own_ports)
