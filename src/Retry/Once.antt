-- ===== src/Retry/Once.antt =====
-- No peer address is dialed twice by the attempts of crates/openrusty-server/src/pipeline/mod.rs.
use openrusty.Prelude.{
  ℕ, zero, suc, ◌+◌, ◌%◌, ◌≡◌, ◌≢◌, refl, ap, ◌∙◌, sym, false, ◌||◌, inl, inr, some, List, [], ◌∷◌,
  ◌++◌, arith, u32_mod, contains, All, Option-cases, Bool-cases, not, ◌&&◌,
}
use openrusty.Phase.{Phase, Decision, is_terminal}
use openrusty.Health.{SocketAddr, addr_eq, addr_beq, addr_beq_iff}
use openrusty.Session.{
  Start, Slot, is_log, run_slot, run_slots, run_phase, call_guest, start_guest, settle,
  PhaseOutcome,
}
use openrusty.Picker.{Upstream, Peer, PickState, ReqCtx, ctx_of, with_ctx, mark_tried}
use openrusty.Picker.Sound.{phased}
use openrusty.Retry.{Method, Outcome, Attempt, Reply, settle_attempt, attempt_loop, proxy_attempts}
use openrusty.Retry.Rounds.{round_inv, retry_state, fresh}

-- No call into the plugin changes which addresses count as tried.
abbrev pub KeepsTried : {Inst : Type 0} → Slot Inst ReqCtx → Type 0
KeepsTried {Inst} s =
    (inst : Inst) (n : ℕ) (ctx : ReqCtx) → (s.plugin.on_phase inst n ctx).2.tried ≡ ctx.tried

-- No two of the peers have the same address.
abbrev pub Distinct : List Peer → Type 0
Distinct [] = Unit
Distinct (p ∷ ps) = All (λ q. q.addr ≢ p.addr) ps × Distinct ps

module _ {Inst : Type 0} where
  settle_plugin : (s : Slot Inst ReqCtx) (o : PhaseOutcome) → (settle s o).0.plugin ≡ s.plugin
  unfolding settle
  settle_plugin s (PhaseOutcome.decision d) = refl
  settle_plugin s (PhaseOutcome.error k) = refl

  call_keeps :
      (phase : Phase) (s : Slot Inst ReqCtx) (inst : Inst) (ctx : ReqCtx)
      → KeepsTried s
      → ((call_guest phase s inst ctx).1.tried ≡ ctx.tried)
        × ((call_guest phase s inst ctx).0.plugin ≡ s.plugin)
  unfolding call_guest
  call_keeps phase s inst ctx keeps = (keeps inst _ ctx, settle_plugin _ _)

  start_keeps :
      (phase : Phase) (s : Slot Inst ReqCtx) (st : Start Inst) (ctx : ReqCtx)
      → KeepsTried s
      → ((start_guest phase s st ctx).1.tried ≡ ctx.tried)
        × ((start_guest phase s st ctx).0.plugin ≡ s.plugin)
  unfolding start_guest
  start_keeps phase s (Start.ready inst) ctx keeps = call_keeps phase s inst ctx keeps
  start_keeps phase s Start.interrupted ctx keeps = (refl, refl)
  start_keeps phase s Start.failed ctx keeps = (refl, refl)

  slot_keeps :
      (phase : Phase) (s : Slot Inst ReqCtx) (ctx : ReqCtx)
      → KeepsTried s
      → ((run_slot phase s ctx).1.tried ≡ ctx.tried) × ((run_slot phase s ctx).0.plugin ≡ s.plugin)
  unfolding run_slot
  slot_keeps phase s ctx keeps = elim (Option-cases s.rt) [
    | inl e ↦ ground (arith, start_keeps phase s s.plugin.start ctx keeps)
    | inr (inst, e) ↦ ground (arith, call_keeps phase s inst ctx keeps)
  ]

  slots_keep :
      (phase : Phase) (last : Decision) (slots : List (Slot Inst ReqCtx)) (ctx : ReqCtx)
      → All KeepsTried slots
      → ((run_slots phase last slots ctx).1.tried ≡ ctx.tried)
        × All KeepsTried (run_slots phase last slots ctx).0
  unfolding run_slots
  slots_keep phase last [] ctx all = (refl, tt)
  slots_keep phase last (s ∷ rest) ctx all =
      let here = run_slot phase s ctx in
      let (same, plugin) = slot_keeps phase s ctx all.0 in
      let (ih, kept) = slots_keep phase here.2 rest here.1 all.1 in
      let keeps : KeepsTried here.0 = rw plugin all.0 in
      elim (Bool-cases (is_terminal here.2 && not (is_log phase))) [
        | inl stop ↦ rw stop (same, (keeps, all.1))
        | inr go ↦ rw go (ih ∙ same, (keeps, kept))
      ]

-- What the balancer phase leaves of the tried addresses.
phased_keeps :
    {Inst : Type 0} (st : PickState Inst)
    → All KeepsTried st.session.slots
    → ((ctx_of (phased st)).tried ≡ (ctx_of st).tried) × All KeepsTried (phased st).session.slots
unfolding run_phase
phased_keeps st all = slots_keep Phase.balancer Decision.declined st.session.slots (ctx_of st) all

contains_snoc :
    (xs : List SocketAddr) (a b : SocketAddr)
    → contains (xs ++ a ∷ []) b ≡ (contains xs b || addr_beq a b)
contains_snoc [] a b = ground arith
contains_snoc (x ∷ xs) a b = ground (arith, contains_snoc xs a b)

-- A mark only adds to the tried addresses, and it adds the address.
tried_grows :
    (ctx : ReqCtx) (a b : SocketAddr)
    → contains (mark_tried ctx a).tried b ≡ false
    → (contains ctx.tried b ≡ false) × (b ≢ a)
unfolding mark_tried
tried_grows ctx a b h = (
  ground (arith, contains_snoc ctx.tried a b),
  λ same. ground (
    arith,
    contains_snoc ctx.tried a b,
    (addr_beq_iff a b).1 (sym same),
    (ap (λ c. contains ctx.tried c) same),
  ),
)

tried_grows-All :
    (ctx : ReqCtx) (a : SocketAddr) (ps : List Peer)
    → All (λ q. contains (mark_tried ctx a).tried q.addr ≡ false) ps
    → All (λ q. contains ctx.tried q.addr ≡ false) ps × All (λ q. q.addr ≢ a) ps
tried_grows-All ctx a [] all = (tt, tt)
tried_grows-All ctx a (p ∷ ps) all =
    let (old, new) = tried_grows ctx a p.addr all.0 in
    let (olds, news) = tried_grows-All ctx a ps all.1 in ((old, olds), (new, news))

settle_session :
    {Inst : Type 0} (up : Upstream) (idx ended : ℕ) (o : Outcome) (st : PickState Inst)
    → (settle_attempt up idx ended o st).session ≡ st.session
unfolding settle_attempt
settle_session up idx ended (Outcome.answered s) st = refl
settle_session up idx ended (Outcome.failed k) st = refl
settle_session up idx ended Outcome.timed_out st = refl

mark_only_tried :
    (c c' : ReqCtx) (a : SocketAddr)
    → c.tried ≡ c'.tried
    → (mark_tried c a).tried ≡ (mark_tried c' a).tried
unfolding mark_tried
mark_only_tried c c' a e = ground arith

module _ {Inst : Type 0} (show_ip : List ℕ → List ℕ) (method : Method) (up : Upstream)
    (env : ℕ → Attempt) (attempts : ℕ) where
  retry_keeps :
      (attempt idx : ℕ) (p : Peer) (st : PickState Inst)
      → ((ctx_of (retry_state show_ip method up env attempts attempt idx p st)).tried
          ≡ (mark_tried (ctx_of st) p.addr).tried)
        × ((retry_state show_ip method up env attempts attempt idx p st).session.slots
            ≡ st.session.slots)
  retry_keeps attempt idx p st =
      let settled =
        settle_session up idx (env attempt).ended ((env attempt).outcome p)
          (with_ctx st (record (ctx_of st) { peer_index = some (idx % u32_mod) })) in
      (mark_only_tried _ _ p.addr (ap (λ s. s.shared.tried) settled), ap (λ s. s.slots) settled)

  -- A peer that the loop dials was not tried before, and it is dialed once.
  loop_once :
      (attempt left : ℕ) (st : PickState Inst) {out : PickState Inst} {dialed : List Peer}
      {reply : Reply}
      → All KeepsTried st.session.slots
      → attempt_loop show_ip method up env attempts attempt left st ≡ some (out, dialed, reply)
      → All (λ q. contains (ctx_of st).tried q.addr ≡ false) dialed × Distinct dialed
  unfolding attempt_loop
  loop_once attempt zero st {out} {dialed} keeps e =
      let nobody : dialed ≡ [] = ground arith in rw nobody (tt, tt)
  loop_once attempt (suc left) st {out} {dialed} {reply} keeps e =
      elim (round_inv show_ip method up env attempts attempt left st e) [
        | inl nobody ↦ rw nobody (tt, tt)
        | inr (idx, mid, p, rest, split, untried, taken, inl ends) ↦
            let same = (phased_keeps (fresh show_ip method up env attempts attempt st) keeps).0 in
            rw (split, ends) ((rw same at untried, tt), (tt, tt))
        | inr (idx, mid, p, rest, split, untried, taken, inr (retried, again)) ↦
            let (same, kept) =
              phased_keeps (fresh show_ip method up env attempts attempt st) keeps in
            let next = retry_state show_ip method up env attempts attempt idx p mid in
            let (marked, slots) = retry_keeps attempt idx p mid in
            let keeps' : All KeepsTried next.session.slots = rw (slots, taken.slots_kept) kept in
            let (free, apart) = loop_once (attempt + 1) left next keeps' again in
            let (old, new) = tried_grows-All (ctx_of mid) p.addr rest (rw marked at free) in
            rw split ((rw same at untried, rw (taken.tried_kept ∙ same) at old), (new, apart))
      ]

-- A request dials no address twice, as long as no plugin changes which addresses count as tried.
pub proxy_attempts-Distinct :
    {Inst : Type 0} (show_ip : List ℕ → List ℕ) (method : Method) (up : Upstream)
    (env : ℕ → Attempt) (st : PickState Inst) {out : PickState Inst} {dialed : List Peer}
    {reply : Reply}
    → All KeepsTried st.session.slots
    → proxy_attempts show_ip method up env st ≡ some (out, dialed, reply)
    → Distinct dialed
unfolding proxy_attempts
proxy_attempts-Distinct show_ip method up env st keeps e =
    (loop_once show_ip method up env ((up.retries + 1) % u32_mod) 0 ((up.retries + 1) % u32_mod) st
      keeps e).1
