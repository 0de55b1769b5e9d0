-- ===== src/Tests/Server.antt =====
-- The plugin chain, the choice of a peer and the attempts at concrete inputs.
use openrusty.Prelude.{
  ℕ, ◌+◌, ◌%◌, ◌<◌, ◌≤◌, ◌≡◌, refl, Bool, true, false, Option, none, some, List, [], ◌∷◌, arith,
  ◌==◌, if◌then◌else◌, String, length, get_elem?, u32_mod, modify, replicate,
}
use openrusty.Prelude.Int.{ℤ, pos, negsuc}
use openrusty.Phase.{Phase, Decision, id}
use openrusty.Health.{SocketAddr, inc_in_flight}
use openrusty.Session.{FailPolicy, Guest, Start, Plugin, Slot, RequestSession, run_phase}
use openrusty.Session.Chain.{
  run_phase_stops, run_phase_log, run_phase-FailClosed, last_of, decisions, error_log,
}
use openrusty.Picker.{Peer, BalancerKind, Upstream, ReqCtx, Pick, PickState, pick_peer}
use openrusty.Picker.Sound.{Usable, pick_peer-Usable}
use openrusty.Retry.{FailureKind, Method, Outcome, Attempt, Reply, Run, proxy_attempts}
use openrusty.Retry.Bounds.{proxy_attempts_at_most_once}
use openrusty.Retry.Once.{Distinct, proxy_attempts-Distinct}
use openrusty.Tests.{addr_at, two_peers, strict}

abbrev Plug : Type 0
Plug = Plugin Unit ReqCtx

-- A plugin that returns one code, whatever the phase.
abbrev answering : ℤ → Plug
answering code = record {
  fail_policy = FailPolicy.fail_closed;
  start = Start.ready tt;
  on_phase = λ inst n ctx. (Guest.returned code, inst, ctx);
}

abbrev slot : Plug → Slot Unit ReqCtx
slot p = record { plugin = p; rt = none; errors = [] }

abbrev start_ctx : ReqCtx
start_ctx = record { client_addr = addr_at 9000; peer_index = none; attempts = 0; tried = [] }

abbrev session : List (Slot Unit ReqCtx) → RequestSession Unit ReqCtx
session slots = record { slots = slots; shared = start_ctx; phase_calls = replicate 8 0 }

-- The first passes, the second denies, the third would pass.
abbrev gate : RequestSession Unit ReqCtx
gate =
    session
      (slot (answering (negsuc 4)) ∷ slot (answering (pos 403)) ∷ slot (answering (pos 0)) ∷ [])

abbrev open_gate : RequestSession Unit ReqCtx
open_gate = session (slot (answering (pos 0)) ∷ slot (answering (negsuc 4)) ∷ [])

run_phase_stops_example :
    ((run_phase Phase.access gate).1 ≡ Decision.deny 403)
    × ((run_phase Phase.access gate).0.phase_calls
        ≡ modify (replicate 8 0) (id Phase.access) (λ k. k + 2))
unfolding openrusty.Session.run_slot openrusty.Phase.is_terminal openrusty.Phase.from_abi
run_phase_stops_example = run_phase_stops Phase.access gate refl

run_phase_log_example :
    ((run_phase Phase.log gate).1
      ≡ last_of Decision.declined (decisions Phase.log gate.slots gate.shared))
    × ((run_phase Phase.log gate).0.phase_calls
        ≡ modify (replicate 8 0) (id Phase.log) (λ k. k + 3))
run_phase_log_example = run_phase_log gate

run_phase-FailClosed_example : error_log (run_phase Phase.access open_gate).0.slots ≡ [] ∷ [] ∷ []
unfolding run_phase openrusty.Phase.from_abi
run_phase-FailClosed_example =
    run_phase-FailClosed Phase.access open_gate refl (refl, (refl, tt)) refl

abbrev backend : Upstream
backend = record {
  name = "api";
  kind = BalancerKind.swrr;
  retries = 1;
  retry_on_timeout = true;
  peers = record { addr = addr_at 80; weight = 2 } ∷ record { addr = addr_at 81; weight = 1 } ∷ [];
  health = strict;
}

abbrev state : PickState Unit
state = record { health = two_peers; swrr = pos 0 ∷ pos 0 ∷ []; session = open_gate }

abbrev no_ip : List ℕ → List ℕ
no_ip ip = []

-- The state that the pick of the first peer leaves.
abbrev picked : PickState Unit
picked = record {
  health = inc_in_flight two_peers "api" (addr_at 80);
  swrr = negsuc 0 ∷ pos 1 ∷ [];
  session = (run_phase Phase.balancer open_gate).0;
}

pick_peer_run : pick_peer no_ip backend 1000 1000 state ≡ some (picked, Pick.peer 0)
unfolding pick_peer run_phase openrusty.Health.healthy_indices openrusty.Prelude.Assoc.get
    openrusty.Balancer.swrr_next inc_in_flight openrusty.Prelude.Int.◌+ℤ◌ openrusty.Prelude.Int.◌-ℤ◌
    openrusty.Phase.from_abi openrusty.Picker.untried_healthy
pick_peer_run = refl

-- The peer that was picked is listed and untried, and it was healthy at one of the readings.
pick_peer-Usable_example :
    (p : Peer) × Usable two_peers backend 1000 1000
      (run_phase Phase.balancer open_gate).0.shared.tried
      0
      p
    × (picked.health ≡ inc_in_flight two_peers "api" p.addr)
pick_peer-Usable_example = pick_peer-Usable no_ip backend 1000 1000 state pick_peer_run

-- The peer on port 80 refuses the connection, any other one answers.
abbrev env : ℕ → Attempt
env attempt = record {
  now_pin = 1000;
  now = 1000;
  ended = 1010;
  outcome =
      λ p. if p.addr.port == 80 then Outcome.failed FailureKind.connect else Outcome.answered 200;
}

abbrev post : Method
post = Method.other "POST"

abbrev state_after : Run Unit → PickState Unit
state_after none = state
state_after (some r) = r.0

abbrev both : List Peer
both = record { addr = addr_at 80; weight = 2 } ∷ record { addr = addr_at 81; weight = 1 } ∷ []

attempts_run :
    proxy_attempts no_ip post backend env state
    ≡ some (state_after (proxy_attempts no_ip post backend env state), both, Reply.answered 1 200)
unfolding proxy_attempts pick_peer run_phase openrusty.Phase.from_abi
    openrusty.Picker.untried_healthy openrusty.Health.healthy_indices openrusty.Prelude.Assoc.get
    openrusty.Balancer.swrr_next openrusty.Prelude.Int.◌+ℤ◌ openrusty.Picker.release_peer
    openrusty.Health.dec_in_flight openrusty.Health.update_gauge openrusty.Health.record_failure
    openrusty.Health.update_peer inc_in_flight openrusty.Health.addr_slot
    openrusty.Prelude.Assoc.insert openrusty.Health.count_failure openrusty.Health.evaluate_failure
    openrusty.Picker.mark_tried openrusty.Prelude.Int.◌-ℤ◌ openrusty.Health.record_success
    openrusty.Health.lookup openrusty.Health.is_healthy
attempts_run = refl

proxy_attempts_at_most_once_example :
    (env 0).outcome (record { addr = addr_at 80; weight = 2 }) ≡ Outcome.failed FailureKind.connect
unfolding openrusty.Retry.is_idempotent
proxy_attempts_at_most_once_example =
    proxy_attempts_at_most_once no_ip post backend env state refl attempts_run 0 refl (omega arith)

proxy_attempts-Distinct_example : Distinct both
proxy_attempts-Distinct_example =
    proxy_attempts-Distinct no_ip post backend env state
      ((λ inst n ctx. refl), ((λ inst n ctx. refl), tt)) attempts_run
