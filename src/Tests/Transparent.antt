-- ===== src/Tests/Transparent.antt =====
-- Tests of the models of intercepted connections, and the witnesses of the theorems on them.
use openrusty.Prelude.{
  ◌||◌, if◌then◌else◌, ℕ, ◌≡◌, refl, Bool, true, false, some, none, List, [], ◌∷◌, ◌++◌, map, All,
}
use openrusty.Prelude.Text.{codes, starts_with}
use openrusty.Health.Data.{SocketAddr}
use openrusty.Transparent.{
  Bytes, Protocol, complete, incomplete, classify, Read, got, settled, h1_methods, h2_prefix,
  detect,
}
use openrusty.Transparent.Classify.{classify_lem, is_h1, may_grow}
use openrusty.Transparent.Chunks.{detect_lem, join, verdict}
use openrusty.Transparent.Conn.{
  is_loopback, ListenerRole, EgressMode, ListenerConfig, EgressPlane, prefixed, Outcome, counted,
  dialled, tunnelled,
}
use openrusty.Transparent.Split.{route_pre, handle_conn}
use openrusty.Transparent.Egress.{route_egress, forward_to_gateway, run_outbound}
use openrusty.Transparent.Wire.{CountsOnce, handle_conn-CountsOnce}
use openrusty.Transparent.Allowed.{Allowed}
use openrusty.Transparent.Safe.{handle_conn-Allowed}
use openrusty.Transparent.Prefixed.{Faithful}

-- Every dial succeeds.
abbrev reachable : SocketAddr → Bool
reachable a = true

abbrev at_port : ℕ → SocketAddr
at_port port = record { ip = 10 ∷ 0 ∷ 0 ∷ 1 ∷ []; port = port }

abbrev listener : ListenerRole → ListenerConfig
listener role = record {
  role = role;
  listen = at_port 8080;
  http1_only = false;
  transparent = true;
  detect_timeout_ms = 3000;
  tls = false;
  tls_cert = none;
  tls_key = none;
}

abbrev plane : EgressMode → EgressPlane
plane mode = record {
  egress = record { mode = mode; gateway = codes "10.0.0.1:15001" };
  gateway = some (at_port 15001);
}

abbrev request : List Bytes
request = codes "GE" ∷ codes "T / HTTP/1.1" ∷ []

abbrev reads : List Read
reads = map got request

through_gateway :
    handle_conn reachable
      (listener ListenerRole.outbound)
      (plane EgressMode.gateway)
      (8080 ∷ [])
      (some (at_port 80))
      reads
    ≡ dialled (at_port 15001)
      ∷ counted ListenerRole.outbound Outcome.egress_gateway_ok
      ∷ tunnelled (at_port 15001) (prefixed (codes "GET / HTTP/1.1") [])
      ∷ []
unfolding handle_conn route_pre is_loopback run_outbound route_egress detect classify starts_with
    forward_to_gateway
through_gateway = refl

closed_on_own_port :
    handle_conn reachable
      (listener ListenerRole.inbound)
      (plane EgressMode.direct)
      (8080 ∷ [])
      (some (at_port 8080))
      reads
    ≡ counted ListenerRole.inbound Outcome.loop_rejected ∷ []
unfolding handle_conn route_pre is_loopback
closed_on_own_port = refl

closed_on_tls :
    handle_conn reachable
      (listener ListenerRole.outbound)
      (plane EgressMode.gateway)
      (8080 ∷ [])
      (some (at_port 443))
      reads
    ≡ counted ListenerRole.outbound Outcome.egress_deny ∷ []
unfolding handle_conn route_pre is_loopback run_outbound route_egress detect classify starts_with
closed_on_tls = refl

detect_lem_example :
    (prefix : Bytes) × (left : List Bytes) × (detect (map got request)
      ≡ settled (verdict (classify (join request))) prefix (map got left))
    × (prefix ++ join left ≡ join request)
detect_lem_example = detect_lem request (refl, (refl, tt))

handle_conn-CountsOnce_example : CountsOnce reads (
    handle_conn reachable
      (listener ListenerRole.outbound)
      (plane EgressMode.gateway)
      (8080 ∷ [])
      (some (at_port 80))
      reads)
handle_conn-CountsOnce_example =
    handle_conn-CountsOnce reachable (listener ListenerRole.outbound) (plane EgressMode.gateway)
      (8080 ∷ []) (some (at_port 80)) reads

handle_conn-Allowed_example :
    All
      (Allowed reachable
        (listener ListenerRole.outbound)
        (plane EgressMode.gateway)
        (8080 ∷ [])
        (some (at_port 80))
        reads)
      (handle_conn reachable
        (listener ListenerRole.outbound)
        (plane EgressMode.gateway)
        (8080 ∷ [])
        (some (at_port 80))
        reads)
handle_conn-Allowed_example =
    handle_conn-Allowed reachable (listener ListenerRole.outbound) (plane EgressMode.gateway)
      (8080 ∷ []) (some (at_port 80)) reads

classify_lem_example : classify (codes "PUT /") ≡ (
    if starts_with (codes "PUT /") h2_prefix
    then complete Protocol.h2
    else if is_h1 h1_methods (codes "PUT /")
    then complete Protocol.h1
    else if starts_with h2_prefix (codes "PUT /") || may_grow h1_methods (codes "PUT /")
    then incomplete
    else complete Protocol.opaque)
classify_lem_example = classify_lem (codes "PUT /")

-- A socket that gives one byte at a time.
abbrev byte_read : ℕ → Bytes → Bytes × Bytes
byte_read room [] = ([], [])
byte_read room (b ∷ bs) = (b ∷ [], bs)

byte_read-Faithful : Faithful byte_read (λ bs. bs)
byte_read-Faithful room [] = refl
byte_read-Faithful room (b ∷ bs) = refl
