-- ===== src/Session.antt =====
-- The plugin chain of one request: crates/openrusty-wasm/src/runner.rs (one phase in one plugin) and
-- crates/openrusty-wasm/src/session.rs (one phase across the chain). Wasm is a parameter: `Inst` is
-- an instance with its linear memory, `Shared` is what the session lends to each call (the request
-- context, the peer views, the headers and the bodies), and a plugin brings what instantiating it
-- and calling its `orr_on_phase` do. Of the statistics the wall time is left out; logging is too.
pub mod Chain
use openrusty.Prelude.{
  ℕ, suc, ◌+◌, Bool, true, false, not, ◌&&◌, Option, none, some, List, [], ◌∷◌, String,
  if◌then◌else◌, modify, ◌++◌,
}
use openrusty.Prelude.Int.{ℤ}
use openrusty.Phase.{Phase, id, Decision, from_abi, is_terminal}

pub data FailPolicy : Type 0 where
  fail_open fail_closed : FailPolicy

-- What a call into the guest ends with: a code, the epoch trap or another trap.
pub data Guest : Type 0 where
  returned : ℤ → Guest
  interrupted trapped : Guest

pub data ErrorKind : Type 0 where
  trap timeout : ErrorKind
  bad_code : ℤ → ErrorKind

pub data PhaseOutcome : Type 0 where
  decision : Decision → PhaseOutcome
  error : ErrorKind → PhaseOutcome

unfoldable pub fallback_decision : FailPolicy → Decision
fallback_decision FailPolicy.fail_open = Decision.declined
fallback_decision FailPolicy.fail_closed = Decision.deny 503

-- The label under which an error is counted.
unfoldable pub kind_label : ErrorKind → String
kind_label ErrorKind.trap = "trap"
kind_label ErrorKind.timeout = "timeout"
kind_label (ErrorKind.bad_code code) = "bad_code"

-- `run_phase_outcome`, from the result of the call.
unfoldable pub outcome_of : Guest → PhaseOutcome
outcome_of (Guest.returned code) = elim (from_abi code) [
  | some d ↦ PhaseOutcome.decision d
  | none ↦ PhaseOutcome.error (ErrorKind.bad_code code)
]
outcome_of Guest.interrupted = PhaseOutcome.error ErrorKind.timeout
outcome_of Guest.trapped = PhaseOutcome.error ErrorKind.trap

-- Instantiating a plugin gives an instance, or meets the epoch trap, or fails otherwise.
pub data Start (Inst : Type 0) : Type 0 where
  ready : Inst → Start Inst
  interrupted failed : Start Inst

-- `LoadedPlugin`. A call of `on_phase` also leaves its mark on the instance and on what it was lent.
pub record Plugin (Inst Shared : Type 0) : Type 0 where
  pub fail_policy : FailPolicy
  pub start : Start Inst
  pub on_phase : Inst → ℕ → Shared → Guest × Inst × Shared

-- A plugin of the chain, its lazily made instance and the labels of the errors counted on it.
pub record Slot (Inst Shared : Type 0) : Type 0 where
  pub plugin : Plugin Inst Shared
  pub rt : Option Inst
  pub errors : List String

-- `phase_calls` counts the invocations of each phase.
pub record RequestSession (Inst Shared : Type 0) : Type 0 where
  pub slots : List (Slot Inst Shared)
  pub shared : Shared
  pub phase_calls : List ℕ

abbrev pub is_log : Phase → Bool
is_log Phase.log = true
is_log _ = false

module _ {Inst Shared : Type 0} where
  -- `runner::run_phase`: the outcome, with a failure counted and mapped through the policy.
  unfoldable pub settle : Slot Inst Shared → PhaseOutcome → Slot Inst Shared × Decision
  unfolding fallback_decision kind_label
  settle s (PhaseOutcome.decision d) = (s, d)
  settle s (PhaseOutcome.error kind) =
      (record s { errors = kind_label kind ∷ s.errors }, fallback_decision s.plugin.fail_policy)

  -- The call of an instance that is there.
  unfoldable pub call_guest :
      Phase → Slot Inst Shared → Inst → Shared → Slot Inst Shared × Shared × Decision
  unfolding settle outcome_of
  call_guest phase s inst shared =
      let (guest, inst', shared') = s.plugin.on_phase inst (id phase) shared in
      let (s', d) = settle (record s { rt = some inst' }) (outcome_of guest) in (s', shared', d)

  -- The instantiation, where the slot has no instance yet.
  unfoldable pub start_guest :
      Phase → Slot Inst Shared → Start Inst → Shared → Slot Inst Shared × Shared × Decision
  unfolding call_guest fallback_decision
  start_guest phase s (Start.ready inst) shared = call_guest phase s inst shared
  start_guest phase s Start.interrupted shared =
      (record s { errors = "timeout" ∷ s.errors }, shared, fallback_decision s.plugin.fail_policy)
  start_guest phase s Start.failed shared =
      (record s { errors = "trap" ∷ s.errors }, shared, fallback_decision s.plugin.fail_policy)

  -- One round of the loop of `RequestSession::run_phase`.
  unfoldable pub run_slot : Phase → Slot Inst Shared → Shared → Slot Inst Shared × Shared × Decision
  unfolding start_guest
  run_slot phase s shared = elim s.rt [
    | none ↦ start_guest phase s s.plugin.start shared
    | some inst ↦ call_guest phase s inst shared
  ]

  -- The loop over the chain: the slots and the shared state after it, the number of invocations and
  -- the decision, which is `last` where no slot is left.
  unfoldable pub run_slots :
      Phase
      → Decision
      → List (Slot Inst Shared)
      → Shared
      → List (Slot Inst Shared) × Shared × ℕ × Decision
  unfolding run_slot is_terminal
  run_slots phase last [] shared = ([], shared, 0, last)
  run_slots phase last (s ∷ rest) shared =
      let (s', shared', d) = run_slot phase s shared in
      let (rest', shared'', n, d') = run_slots phase d rest shared' in
      if is_terminal d && not (is_log phase)
      then (s' ∷ rest, shared', 1, d)
      else (s' ∷ rest', shared'', suc n, d')

  unfoldable pub run_phase :
      Phase → RequestSession Inst Shared → RequestSession Inst Shared × Decision
  unfolding run_slots
  run_phase phase session =
      let (slots, shared, n, d) = run_slots phase Decision.declined session.slots session.shared in
      (
        record {
          slots = slots;
          shared = shared;
          phase_calls = modify session.phase_calls (id phase) (λ k. k + n);
        },
        d,
      )
