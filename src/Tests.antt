-- ===== src/Tests.antt =====
-- The theorems at concrete inputs and runs of the models; in this file the data that they share.
pub mod Phase
pub mod Health
pub mod Proxy
pub mod Server
pub mod Store
pub mod Routing
pub mod Dynamic
pub mod Transparent
pub mod Watch
pub mod Admin
pub mod Config
pub mod Kube
pub mod Runtime
use openrusty.Prelude.{ℕ, ◌==◌, if◌then◌else◌, true, none, List, [], ◌∷◌, String}
use openrusty.Health.{SocketAddr, HealthConfig, PeerHealth, HealthRegistry}

abbrev pub addr_at : ℕ → SocketAddr
addr_at port = record { ip = 10 ∷ 0 ∷ 0 ∷ 1 ∷ []; port = port }

abbrev pub show_addr : SocketAddr → String
show_addr a = if a.port == 80 then "10.0.0.1:80" else "10.0.0.1:81"

abbrev pub idle : PeerHealth
idle = record { fails = 0; window_start_ms = 0; down_until_ms = 0; active_ok = true; in_flight = 0 }

-- One failure on record, and two requests in flight.
abbrev pub shaky : PeerHealth
shaky = record {
  fails = 1;
  window_start_ms = 500;
  down_until_ms = 0;
  active_ok = true;
  in_flight = 2;
}

abbrev pub two_peers : HealthRegistry
two_peers = record {
  upstreams =
      ("api", record { addrs = addr_at 80 ∷ addr_at 81 ∷ []; peers = shaky ∷ idle ∷ [] }) ∷ [];
  active = [];
}

-- Two failures in ten seconds; down for five.
abbrev pub strict : HealthConfig
strict = record { max_fails = 2; fail_window_s = 10; fail_timeout_s = 5; active = none }

-- A timeout far over what 64 bits of milliseconds hold.
abbrev pub forever : HealthConfig
forever = record {
  max_fails = 2;
  fail_window_s = 10;
  fail_timeout_s = 18446744073709551615;
  active = none;
}
