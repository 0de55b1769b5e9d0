-- ===== src/Session/Chain.antt =====
-- What `RequestSession::run_phase` of crates/openrusty-wasm/src/session.rs decides.
use openrusty.Prelude.{
  ℕ, suc, ◌+◌, ◌≡◌, refl, ap, false, inl, inr, List, [], ◌∷◌, String, if◌then◌else◌, length, arith,
  Option-cases, ◌⊎◌, modify, All,
}
use openrusty.Phase.{Phase, id, Decision, is_terminal}
use openrusty.Session.{
  FailPolicy, PhaseOutcome, ErrorKind, outcome_of, Start, Slot, RequestSession, call_guest,
  start_guest, run_slot, is_log, run_slots, run_phase,
}

-- The first terminal decision of a list, or else its last one, or else `last`.
abbrev pub first_terminal : Decision → List Decision → Decision
first_terminal last [] = last
first_terminal last (d ∷ ds) = if is_terminal d then d else first_terminal d ds

-- The last decision of a list.
abbrev pub last_of : Decision → List Decision → Decision
last_of last [] = last
last_of last (d ∷ ds) = last_of d ds

-- How many decisions a chain makes that stops at the first terminal one.
abbrev pub until_terminal : List Decision → ℕ
until_terminal [] = 0
until_terminal (d ∷ ds) = if is_terminal d then 1 else suc (until_terminal ds)

Outcome-cases :
    (o : PhaseOutcome)
    → ((d : Decision) × (o ≡ PhaseOutcome.decision d))
      ⊎ ((k : ErrorKind) × (o ≡ PhaseOutcome.error k))
Outcome-cases (PhaseOutcome.decision d) = inl (d, refl)
Outcome-cases (PhaseOutcome.error k) = inr (k, refl)

module _ {Inst Shared : Type 0} where
  -- The decisions of the whole chain, were no decision to stop it.
  abbrev pub decisions : Phase → List (Slot Inst Shared) → Shared → List Decision
  decisions phase [] shared = []
  decisions phase (s ∷ rest) shared =
      (run_slot phase s shared).2 ∷ decisions phase rest (run_slot phase s shared).1

  run_slots_stops :
      (phase : Phase) (last : Decision) (slots : List (Slot Inst Shared)) (shared : Shared)
      → is_log phase ≡ false
      → ((run_slots phase last slots shared).3 ≡ first_terminal last (decisions phase slots shared))
        × ((run_slots phase last slots shared).2 ≡ until_terminal (decisions phase slots shared))
  unfolding run_slots
  run_slots_stops phase last [] shared h = (refl, refl)
  run_slots_stops phase last (s ∷ rest) shared h =
      let here = run_slot phase s shared in
      let ih = run_slots_stops phase here.2 rest here.1 h in
      (ground (arith, ih.0), ground (arith, ih.1))

  run_slots_log :
      (last : Decision) (slots : List (Slot Inst Shared)) (shared : Shared)
      → ((run_slots Phase.log last slots shared).3
          ≡ last_of last (decisions Phase.log slots shared))
        × ((run_slots Phase.log last slots shared).2 ≡ length slots)
  unfolding run_slots
  run_slots_log last [] shared = (refl, refl)
  run_slots_log last (s ∷ rest) shared =
      let here = run_slot Phase.log s shared in
      let ih = run_slots_log here.2 rest here.1 in (ground (arith, ih.0), ground (arith, ih.1))

  -- In a phase other than `log` the chain decides what its first terminal decision says, or else its
  -- last decision, or `declined` for no plugins, and it invokes no plugin behind a terminal one.
  pub run_phase_stops :
      (phase : Phase) (session : RequestSession Inst Shared)
      → is_log phase ≡ false
      → ((run_phase phase session).1
          ≡ first_terminal Decision.declined (decisions phase session.slots session.shared))
        × ((run_phase phase session).0.phase_calls
            ≡ modify session.phase_calls
                (id phase)
                (λ k. k + until_terminal (decisions phase session.slots session.shared)))
  unfolding run_phase
  run_phase_stops phase session h =
      let r = run_slots_stops phase Decision.declined session.slots session.shared h in
      (r.0, ap (λ n. modify session.phase_calls (id phase) (λ k. k + n)) r.1)

  -- The `log` phase invokes every plugin, whatever they decide.
  pub run_phase_log :
      (session : RequestSession Inst Shared)
      → ((run_phase Phase.log session).1
          ≡ last_of Decision.declined (decisions Phase.log session.slots session.shared))
        × ((run_phase Phase.log session).0.phase_calls
            ≡ modify session.phase_calls (id Phase.log) (λ k. k + length session.slots))
  unfolding run_phase
  run_phase_log session =
      let r = run_slots_log Decision.declined session.slots session.shared in
      (r.0, ap (λ n. modify session.phase_calls (id Phase.log) (λ k. k + n)) r.1)

  abbrev pub FailClosed : Slot Inst Shared → Type 0
  FailClosed s = s.plugin.fail_policy ≡ FailPolicy.fail_closed

  abbrev pub error_log : List (Slot Inst Shared) → List (List String)
  error_log [] = []
  error_log (s ∷ rest) = s.errors ∷ error_log rest

  call_clean :
      (phase : Phase) (s : Slot Inst Shared) (inst : Inst) (shared : Shared)
      → FailClosed s
      → is_terminal (call_guest phase s inst shared).2 ≡ false
      → (call_guest phase s inst shared).0.errors ≡ s.errors
  unfolding call_guest is_terminal
  call_clean phase s inst shared closed pass =
      elim (Outcome-cases (outcome_of (s.plugin.on_phase inst (id phase) shared).0)) [
        | inl (d, e) ↦ ground arith
        | inr (kind, e) ↦ ground arith
      ]

  start_clean :
      (phase : Phase) (s : Slot Inst Shared) (st : Start Inst) (shared : Shared)
      → FailClosed s
      → is_terminal (start_guest phase s st shared).2 ≡ false
      → (start_guest phase s st shared).0.errors ≡ s.errors
  unfolding start_guest is_terminal
  start_clean phase s (Start.ready inst) shared closed pass =
      call_clean phase s inst shared closed pass
  start_clean phase s Start.interrupted shared closed pass = ground arith
  start_clean phase s Start.failed shared closed pass = ground arith

  slot_clean :
      (phase : Phase) (s : Slot Inst Shared) (shared : Shared)
      → FailClosed s
      → is_terminal (run_slot phase s shared).2 ≡ false
      → (run_slot phase s shared).0.errors ≡ s.errors
  unfolding run_slot
  slot_clean phase s shared closed pass = elim (Option-cases s.rt) [
    | inl e ↦ ground (arith, start_clean phase s s.plugin.start shared closed)
    | inr (inst, e) ↦ ground (arith, call_clean phase s inst shared closed)
  ]

  chain_clean :
      (phase : Phase) (last : Decision) (slots : List (Slot Inst Shared)) (shared : Shared)
      → is_log phase ≡ false
      → All FailClosed slots
      → is_terminal (run_slots phase last slots shared).3 ≡ false
      → error_log (run_slots phase last slots shared).0 ≡ error_log slots
  unfolding run_slots
  chain_clean phase last [] shared h closed pass = refl
  chain_clean phase last (s ∷ rest) shared h closed pass =
      let here = run_slot phase s shared in
      ground
        (arith, slot_clean phase s shared closed.0, chain_clean phase here.2 rest here.1 h closed.1)

  -- A chain of fail-closed plugins lets a request through a phase other than `log` only if no plugin
  -- failed in it: no error is counted on any of them.
  pub run_phase-FailClosed :
      (phase : Phase) (session : RequestSession Inst Shared)
      → is_log phase ≡ false
      → All FailClosed session.slots
      → is_terminal (run_phase phase session).1 ≡ false
      → error_log (run_phase phase session).0.slots ≡ error_log session.slots
  unfolding run_phase
  run_phase-FailClosed phase session h closed pass =
      chain_clean phase Decision.declined session.slots session.shared h closed pass
