-- ===== src/Transparent/Wire.antt =====
-- What a whole connection of crates/openrusty-server/src/transparent.rs and egress.rs counts, and the
-- bytes that it hands on.
use openrusty.Prelude.{
  ℕ, ◌+◌, ◌≡◌, refl, ap, ◌⊎◌, inl, inr, Bool, true, false, Option, none, some, List, [], ◌∷◌, ◌==◌,
  arith, if◌then◌else◌,
}
use openrusty.Prelude.Text.{Text}
use openrusty.Health.Data.{SocketAddr}
use openrusty.Transparent.{Protocol, Read, Detected, settled, cut, broken, detect}
use openrusty.Transparent.Conn.{
  ListenerRole, EgressMode, ListenerConfig, EgressPlane, Client, bare, prefixed, Effect, counted,
  dialled, tunnelled, served, panicked, is_loopback, tunnel_to,
}
use openrusty.Transparent.Egress.{
  EgressStep, EgressDenyReason, after_sniff, route_egress, forward_to_gateway, run_outbound,
  sniffed,
}
use openrusty.Transparent.Split.{
  route_pre, route_http, handle_conn, inbound_sniffed, take_step, Step, RejectReason, role_step,
}

-- How often a run counts a disposition.
abbrev pub counts : List Effect → ℕ
counts [] = 0
counts (counted role outcome ∷ effects) = 1 + counts effects
counts (dialled a ∷ effects) = counts effects
counts (tunnelled a c ∷ effects) = counts effects
counts (served m c ∷ effects) = counts effects
counts (panicked ∷ effects) = counts effects

abbrev NoProtocol : List Read → Type 0
NoProtocol reads = (detect reads ≡ cut) ⊎ (detect reads ≡ broken)

-- A run counts once, or it does nothing since the sniff failed.
abbrev pub CountsOnce : List Read → List Effect → Type 0
CountsOnce reads effects = (counts effects ≡ 1) ⊎ ((effects ≡ []) × NoProtocol reads)

abbrev by_mode : EgressMode → Text → Option SocketAddr → EgressPlane
by_mode mode name addr = record { egress = record { mode = mode; gateway = name }; gateway = addr }

abbrev by_gateway : Text → Option SocketAddr → EgressPlane
by_gateway name addr = by_mode EgressMode.gateway name addr

forward_to_gateway-counts :
    (connects : SocketAddr → Bool) (io : Client) (addr : Option SocketAddr)
    → counts (forward_to_gateway connects io addr) ≡ 1
unfolding forward_to_gateway
forward_to_gateway-counts connects io none = refl
forward_to_gateway-counts connects io (some a) = ground arith

tunnel_to-counts :
    (connects : SocketAddr → Bool) (io : Client) (a : SocketAddr)
    → counts (tunnel_to connects io a) ≡ 0
unfolding tunnel_to
tunnel_to-counts connects io a = ground arith

after_sniff-counts :
    (connects : SocketAddr → Bool) (plane : EgressPlane) (io : Client) (dst : SocketAddr) (b : Bool)
    → counts (
        after_sniff connects plane io
          (if b then EgressStep.deny EgressDenyReason.tls_port else EgressStep.gateway dst))
      ≡ 1
after_sniff-counts connects plane io dst true = refl
after_sniff-counts connects plane io dst false = forward_to_gateway-counts connects io plane.gateway

sniffed-CountsOnce :
    (connects : SocketAddr → Bool) (name : Text) (addr : Option SocketAddr) (reads : List Read)
    (dst : SocketAddr) (d : Detected)
    → detect reads ≡ d
    → CountsOnce reads (sniffed connects (by_gateway name addr) dst d)
unfolding route_egress
sniffed-CountsOnce connects name addr reads dst (settled Protocol.opaque prefix left) e = inl refl
sniffed-CountsOnce connects name addr reads dst (settled Protocol.h1 prefix left) e = inl (
    after_sniff-counts connects (by_gateway name addr) (prefixed prefix left) dst (dst.port == 443))
sniffed-CountsOnce connects name addr reads dst (settled Protocol.h2 prefix left) e = inl (
    after_sniff-counts connects (by_gateway name addr) (prefixed prefix left) dst (dst.port == 443))
sniffed-CountsOnce connects name addr reads dst cut e = inr (refl, inl e)
sniffed-CountsOnce connects name addr reads dst broken e = inr (refl, inr e)

run_outbound-CountsOnce :
    (connects : SocketAddr → Bool) (mode : EgressMode) (name : Text) (addr : Option SocketAddr)
    (reads : List Read) (dst : SocketAddr)
    → CountsOnce reads (run_outbound connects (by_mode mode name addr) reads dst)
unfolding run_outbound route_egress
run_outbound-CountsOnce connects EgressMode.direct name addr reads dst =
    inl (ap (λ n. 1 + n) (tunnel_to-counts connects (bare reads) dst))
run_outbound-CountsOnce connects EgressMode.deny name addr reads dst = inl refl
run_outbound-CountsOnce connects EgressMode.gateway name addr reads dst =
    sniffed-CountsOnce connects name addr reads dst (detect reads) refl

inbound_sniffed-CountsOnce :
    (connects : SocketAddr → Bool) (role : ListenerRole) (reads : List Read) (dst : SocketAddr)
    (d : Detected)
    → detect reads ≡ d
    → CountsOnce reads (inbound_sniffed connects role dst d)
unfolding route_http
inbound_sniffed-CountsOnce connects role reads dst (settled Protocol.opaque prefix left) e =
    inl (ap (λ n. 1 + n) (tunnel_to-counts connects (prefixed prefix left) dst))
inbound_sniffed-CountsOnce connects role reads dst (settled Protocol.h1 prefix left) e = inl refl
inbound_sniffed-CountsOnce connects role reads dst (settled Protocol.h2 prefix left) e = inl refl
inbound_sniffed-CountsOnce connects role reads dst cut e = inr (refl, inl e)
inbound_sniffed-CountsOnce connects role reads dst broken e = inr (refl, inr e)

role_step-CountsOnce :
    (connects : SocketAddr → Bool) (cfg : ListenerConfig) (plane : EgressPlane) (reads : List Read)
    (dst : SocketAddr) (role : ListenerRole) (b : Bool)
    → CountsOnce reads (
        take_step connects cfg plane reads
          (if b then Step.reject RejectReason.loop else role_step role dst))
role_step-CountsOnce connects cfg plane reads dst role true = inl refl
role_step-CountsOnce connects cfg plane reads dst ListenerRole.outbound false =
    run_outbound-CountsOnce connects plane.egress.mode plane.egress.gateway plane.gateway reads dst
role_step-CountsOnce connects cfg plane reads dst ListenerRole.inbound false =
    inbound_sniffed-CountsOnce connects cfg.role reads dst (detect reads) refl
role_step-CountsOnce connects cfg plane reads dst ListenerRole.admin false =
    inbound_sniffed-CountsOnce connects cfg.role reads dst (detect reads) refl

-- Every intercepted connection is counted under exactly one disposition, except that a connection whose
-- sniff ends with the end of the stream or an error of a read has no effect at all.
pub handle_conn-CountsOnce :
    (connects : SocketAddr → Bool) (cfg : ListenerConfig) (plane : EgressPlane) (own_ports : List ℕ)
    (orig : Option SocketAddr) (reads : List Read)
    → CountsOnce reads (handle_conn connects cfg plane own_ports orig reads)
unfolding handle_conn route_pre
handle_conn-CountsOnce connects cfg plane own_ports (some dst) reads =
    role_step-CountsOnce connects cfg plane reads dst cfg.role (is_loopback dst own_ports)
handle_conn-CountsOnce connects cfg plane own_ports none reads = without_dst cfg.role
  where
    without_dst :
        (role : ListenerRole)
        → CountsOnce reads (take_step connects cfg plane reads (route_pre role none own_ports))
    without_dst ListenerRole.outbound = inl refl
    without_dst ListenerRole.inbound = inl refl
    without_dst ListenerRole.admin = inl refl
