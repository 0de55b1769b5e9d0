-- ===== src/Transparent/Allowed.antt =====
-- What an intercepted connection of crates/openrusty-server/src/transparent.rs and egress.rs may do, as a
-- predicate on its effects.
use openrusty.Prelude.{ℕ, ◌≡◌, refl, ◌⊎◌, Bool, true, false, Option, some, List}
use openrusty.Health.Data.{SocketAddr}
use openrusty.Transparent.{Read}
use openrusty.Transparent.Received.{received, stream}
use openrusty.Transparent.Conn.{
  ListenerRole, EgressMode, ListenerConfig, EgressPlane, Effect, counted, dialled, tunnelled,
  served, panicked, is_loopback,
}

abbrev pub is_outbound : ListenerRole → Bool
is_outbound ListenerRole.outbound = true
is_outbound role = false

-- The roles and modes that may dial the original destination.
abbrev pub dials_orig : ListenerRole → EgressMode → Bool
dials_orig ListenerRole.outbound EgressMode.direct = true
dials_orig ListenerRole.outbound mode = false
dials_orig role mode = true

pub dials_orig_of_local :
    (role : ListenerRole) (mode : EgressMode)
    → is_outbound role ≡ false
    → dials_orig role mode ≡ true
dials_orig_of_local ListenerRole.outbound mode h = cc
dials_orig_of_local ListenerRole.inbound mode h = refl
dials_orig_of_local ListenerRole.admin mode h = refl

abbrev pub MayDial : ListenerConfig → EgressPlane → List ℕ → Option SocketAddr → SocketAddr → Type 0
MayDial cfg plane own_ports orig a =
    ((orig ≡ some a)
      × (is_loopback a own_ports ≡ false)
      × (dials_orig cfg.role plane.egress.mode ≡ true))
    ⊎ ((cfg.role ≡ ListenerRole.outbound)
        × (plane.egress.mode ≡ EgressMode.gateway)
        × (plane.gateway ≡ some a))

-- What a run may do: count under the listener's role, dial and tunnel where it may, and serve what is not
-- outbound, with every byte of the client; never panic.
abbrev pub Allowed :
    (SocketAddr → Bool)
    → ListenerConfig
    → EgressPlane
    → List ℕ
    → Option SocketAddr
    → List Read
    → Effect
    → Type 0
Allowed connects cfg plane own_ports orig reads (counted role outcome) = role ≡ cfg.role
Allowed connects cfg plane own_ports orig reads (dialled a) = MayDial cfg plane own_ports orig a
Allowed connects cfg plane own_ports orig reads (tunnelled a client) =
    MayDial cfg plane own_ports orig a × (connects a ≡ true) × (stream client ≡ received reads)
Allowed connects cfg plane own_ports orig reads (served mode client) =
    (is_outbound cfg.role ≡ false) × (stream client ≡ received reads)
Allowed connects cfg plane own_ports orig reads panicked = ⊥
