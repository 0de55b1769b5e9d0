-- ===== src/Health/Data.antt =====
-- The data of crates/openrusty-proxy/src/health.rs.
use openrusty.Prelude.{
  ℕ, Bool, true, ◌&&◌, List, [], String, Option, ◌==◌, Eq, list_eq, nat_eq, list_beq_iff, ◌≡◌, ◌↔◌,
  arith,
}
use openrusty.Prelude.Text.{Text}

-- `std::net::SocketAddr`: the octets of the address and the port.
pub record SocketAddr : Type 0 where
  pub ip : List ℕ
  pub port : ℕ

abbrev pub addr_beq : SocketAddr → SocketAddr → Bool
addr_beq a b = list_eq.beq a.ip b.ip && a.port == b.port

pub addr_beq_iff : (a b : SocketAddr) → (addr_beq a b ≡ true) ↔ (a ≡ b)
addr_beq_iff a b = ground (arith, list_beq_iff a.ip b.ip)

instance abbrev pub addr_eq : Eq SocketAddr
addr_eq = record { beq = addr_beq; beq_iff = addr_beq_iff }

-- The settings of the prober.
pub record ActiveHealthConfig : Type 0 where
  pub interval_ms : ℕ
  pub timeout_ms : ℕ
  pub path : Text
  pub unhealthy_threshold : ℕ
  pub healthy_threshold : ℕ

pub record HealthConfig : Type 0 where
  pub max_fails : ℕ
  pub fail_window_s : ℕ
  pub fail_timeout_s : ℕ
  pub active : Option ActiveHealthConfig

-- `PeerHealth`, with the fields of its `PeerCounters`.
pub record PeerHealth : Type 0 where
  pub fails : ℕ
  pub window_start_ms : ℕ
  pub down_until_ms : ℕ
  pub active_ok : Bool
  pub in_flight : ℕ

pub record PeerSlots : Type 0 where
  pub addrs : List SocketAddr
  pub peers : List PeerHealth

pub record ActivePeer : Type 0 where
  pub healthy : Bool
  pub fails : ℕ
  pub successes : ℕ

pub record HealthRegistry : Type 0 where
  pub upstreams : List (String × PeerSlots)
  pub active : List ((String × String) × ActivePeer)

abbrev pub new : HealthRegistry
new = record { upstreams = []; active = [] }

abbrev pub fresh : PeerHealth
fresh = record {
  fails = 0;
  window_start_ms = 0;
  down_until_ms = 0;
  active_ok = true;
  in_flight = 0;
}
