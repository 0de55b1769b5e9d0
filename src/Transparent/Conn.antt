-- ===== src/Transparent/Conn.antt =====
-- What an intercepted connection does on the wire, and the settings it reads: crates/openrusty-core's
-- config/listeners.rs and config/egress.rs, crates/openrusty-server's transparent.rs, h2c.rs and
-- metrics.rs, and the loop guard of crates/openrusty-proxy/src/loop_guard.rs. The run of one connection
-- is the list of its effects, in order; its dropped stream at the end closes it.
use openrusty.Prelude.{ℕ, Bool, true, false, Option, List, [], ◌∷◌, if◌then◌else◌, contains, nat_eq}
pub use openrusty.Config.Schema.{ListenerRole, ListenerConfig, EgressMode, EgressConfig}
use openrusty.Health.Data.{SocketAddr}
use openrusty.Transparent.{Bytes, Read}

pub record EgressPlane : Type 0 where
  pub egress : EgressConfig
  pub gateway : Option SocketAddr

pub data ProtoMode : Type 0 where
  auto force_http1 force_http2 : ProtoMode

-- `ProtoMode::from`
abbrev pub proto_mode : Bool → ProtoMode
proto_mode true = ProtoMode.force_http1
proto_mode false = ProtoMode.auto

-- The `OUTCOME_*` labels of `openrusty_transparent_conns_total`.
pub data Outcome : Type 0 where
  http tunnel loop_rejected no_orig_dst : Outcome
  egress_direct egress_deny egress_gateway_ok egress_gateway_fail : Outcome

-- The client's side of a connection: the socket as it is, or with a prefix put back in front of it.
pub data Client : Type 0 where
  bare : List Read → Client
  prefixed : Bytes → List Read → Client

-- An effect: a counted disposition, a dial, a tunnel from the client to an address, an HTTP service of the
-- client, or the panic of `unreachable!`.
pub data Effect : Type 0 where
  counted : ListenerRole → Outcome → Effect
  dialled : SocketAddr → Effect
  tunnelled : SocketAddr → Client → Effect
  served : ProtoMode → Client → Effect
  panicked : Effect

unfoldable pub is_loopback : SocketAddr → List ℕ → Bool
is_loopback original_dst own_ports = contains own_ports original_dst.port

-- `connects` answers for the operating system: whether a dial of the address succeeds in time.
unfoldable pub tunnel_to : (SocketAddr → Bool) → Client → SocketAddr → List Effect
tunnel_to connects client dst =
    dialled dst ∷ (if connects dst then tunnelled dst client ∷ [] else [])
