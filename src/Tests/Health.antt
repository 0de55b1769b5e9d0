-- ===== src/Tests/Health.antt =====
-- crates/openrusty-proxy/src/health.rs at concrete inputs.
use openrusty.Prelude.{
  ℕ, ◌+◌, ◌^◌, ◌<◌, ◌≤◌, ◌≡◌, ◌≢◌, refl, ap, Bool, true, false, ◌&&◌, Option, none, some, List, [],
  ◌∷◌, arith, leb, ltb, select, range, replicate, map,
}
use openrusty.Health.{
  SocketAddr, HealthRegistry, PeerHealth, ActivePeer, is_healthy, healthy_indices, record_failure,
  record_success, record_probe, is_active_healthy, probed, active_entry, register, registered_peer,
  lookup, inc_in_flight, dec_in_flight, gauge, new,
}
use openrusty.Health.Peers.{peer_at}
use openrusty.Health.Passive.{record_failures, record_failure_saturated, record_failures_trip}
use openrusty.Tests.{addr_at, shaky, two_peers, strict, forever}

shaky_is_there : peer_at two_peers "api" 0 ≡ some shaky
unfolding peer_at openrusty.Prelude.Assoc.get
shaky_is_there = refl

record_failure_saturated_example :
    is_healthy (record_failure two_peers "api" 0 forever 1000) "api" 0 2000 ≡ true
record_failure_saturated_example =
    record_failure_saturated two_peers "api" 0 forever 1000 shaky_is_there (omega arith)
      (omega arith) (omega arith) (omega arith) (omega arith) (omega arith) (omega arith) 2000
      (omega arith)

record_failures_trip_example :
    is_healthy
      (record_failure
        (record_failures (record_success two_peers "api" 0 1000) "api" 0 strict (1500 ∷ []))
        "api"
        0
        strict
        1600)
      "api"
      0
      2000
    ≡ false
record_failures_trip_example =
    record_failures_trip two_peers "api" 0 strict 1000 (1500 ∷ []) shaky_is_there (omega arith)
      (omega arith, tt) 1600 refl (omega arith) (omega arith) 2000

abbrev proven : ActivePeer
proven = record { healthy = true; fails = 2; successes = 0 }

abbrev fallen : ActivePeer
fallen = record { healthy = false; fails = 0; successes = 1 }

two_in_flight : gauge two_peers "api" (addr_at 80) ≡ 2
unfolding gauge openrusty.Prelude.Assoc.get openrusty.Health.addr_slot
two_in_flight = refl
