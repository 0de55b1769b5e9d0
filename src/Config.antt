-- ===== src/Config.antt =====
-- crates/openrusty-core/src/config.rs and config/listeners.rs: the listeners of a configuration and their
-- validation, `effective_listeners` and `validate_listeners`.
pub mod Schema
pub mod Equal
pub mod Listeners
pub mod Checks
pub mod Accepted
pub mod Sections
pub mod Valid
use openrusty.Prelude.{
  ◌≡◌, ◌↔◌, refl, subst, ℕ, ◌+◌, Bool, true, false, not, ◌&&◌, ◌||◌, Option, none, some, List, [],
  ◌∷◌, ◌==◌, if◌then◌else◌, is_some, contains, Eq,
}
use openrusty.Prelude.Text.{Text}
use openrusty.Prelude.Result.{Result, ok, err}
use openrusty.Health.Data.{SocketAddr, addr_eq}
use Schema.{ListenerRole, role_beq, role_beq_iff, role_eq, ListenerConfig, ServerConfig, Config}

abbrev pub default_detect_timeout_ms : ℕ
default_detect_timeout_ms = 3000

-- The listener of a server that names none.
abbrev pub derived_listener : ServerConfig → ListenerConfig
derived_listener server = record {
  role = ListenerRole.inbound;
  listen = server.listen;
  http1_only = server.http1_only;
  transparent = false;
  detect_timeout_ms = default_detect_timeout_ms;
  tls = false;
  tls_cert = none;
  tls_key = none;
}

abbrev listeners_or : ServerConfig → List ListenerConfig → List ListenerConfig
listeners_or server [] = derived_listener server ∷ []
listeners_or server (l ∷ ls) = l ∷ ls

unfoldable pub effective_listeners : Config → List ListenerConfig
effective_listeners cfg = listeners_or cfg.server cfg.server.listeners

-- What `validate_listeners` finds wrong with a listener.
pub data Fault : Type 0 where
  repeats_role repeats_address zero_detect_timeout transparent_tls : Fault
  stray_material partial_material no_material : Fault

-- `!=` of two tests.
abbrev pub one_of : Bool → Bool → Bool
one_of a b = a && not b || not a && b

-- The rules on TLS material behind the exemption of an outbound listener.
abbrev pub check_material : Bool → ListenerConfig → Option Fault
check_material ingress l =
    if not (role_beq l.role ListenerRole.admin) && (l.transparent && l.tls)
    then some Fault.transparent_tls
    else if not l.tls
    then (if is_some l.tls_cert || is_some l.tls_key then some Fault.stray_material else none)
    else if not (is_some l.tls_cert && is_some l.tls_key) && not ingress
    then (if one_of (is_some l.tls_cert) (is_some l.tls_key)
        then some Fault.partial_material
        else some Fault.no_material)
    else none

-- One round of the loop, with the roles and the addresses of the earlier listeners.
unfoldable pub check_listener :
    Bool → List ListenerRole → List SocketAddr → ListenerConfig → Option Fault
check_listener ingress roles addrs l =
    if contains roles l.role
    then some Fault.repeats_role
    else if contains addrs l.listen
    then some Fault.repeats_address
    else if l.transparent && l.detect_timeout_ms == 0
    then some Fault.zero_detect_timeout
    else if role_beq l.role ListenerRole.outbound
    then none
    else check_material ingress l

-- The loop from a listener on; a fault is given with the index of its listener.
unfoldable pub validate_from :
    Bool
    → ℕ
    → List ListenerRole
    → List SocketAddr
    → List ListenerConfig
    → Result (ℕ × Fault) (Unit {0})
validate_from ingress i roles addrs [] = ok tt
validate_from ingress i roles addrs (l ∷ ls) =
    let rest = validate_from ingress (i + 1) (l.role ∷ roles) (l.listen ∷ addrs) ls in
    elim (check_listener ingress roles addrs l) [ some fault ↦ err (i, fault) | none ↦ rest ]

unfoldable pub validate_listeners : Config → Result (ℕ × Fault) (Unit {0})
validate_listeners cfg = validate_from cfg.ingress.enabled 0 [] [] cfg.server.listeners
