-- ===== src/Retry/Rounds.antt =====
-- One round of the attempt loop of crates/openrusty-server/src/pipeline/mod.rs, taken apart.
use openrusty.Prelude.{
  ℕ, suc, ◌+◌, ◌%◌, ◌≡◌, refl, ap, ◌∙◌, sym, false, ◌⊎◌, inl, inr, none, some, List, [], ◌∷◌, arith,
  get_elem?, contains, >>=-eq-some, u32_mod,
}
use mathlib.Core.Option.{some-injective}
use openrusty.Health.{addr_eq}
use openrusty.Picker.{Upstream, Peer, Pick, PickState, ctx_of, with_ctx, mark_tried, pick_peer}
use openrusty.Picker.Sound.{Taken, phased, pick_peer-Taken}
use openrusty.Retry.{
  Method, Attempt, Reply, Next, Run, dial, next_step, settle_attempt, after_pick, attempt_loop,
}

dial_inv :
    {Inst : Type 0} (p : Peer) (m : Run Inst) {out : PickState Inst} {dialed : List Peer}
    {reply : Reply}
    → dial p m ≡ some (out, dialed, reply)
    → (rest : List Peer) × (dialed ≡ p ∷ rest) × (m ≡ some (out, rest, reply))
dial_inv p none e = cc
dial_inv p (some (st, ps, r)) e = (ps, ground arith, ground arith)

module _ {Inst : Type 0} (show_ip : List ℕ → List ℕ) (method : Method) (up : Upstream)
    (env : ℕ → Attempt) (attempts : ℕ) where
  -- The state in which an attempt begins.
  abbrev pub fresh : ℕ → PickState Inst → PickState Inst
  fresh attempt st =
      with_ctx st (record (ctx_of st) { attempts = (attempt + 1) % u32_mod; peer_index = none })

  -- The state in which a retry begins, from the state `st` behind the pick.
  abbrev pub retry_state : ℕ → ℕ → Peer → PickState Inst → PickState Inst
  retry_state attempt idx p st =
      let settled =
        settle_attempt up idx (env attempt).ended ((env attempt).outcome p)
          (with_ctx st (record (ctx_of st) { peer_index = some (idx % u32_mod) })) in
      with_ctx settled (mark_tried (ctx_of settled) p.addr)

  -- A round that dials: the peer, and either the end of the loop or a retry.
  abbrev Dialed :
      ℕ
      → (PickState Inst → Run Inst)
      → PickState Inst
      → ℕ
      → PickState Inst
      → List Peer
      → Reply
      → Type 0
  Dialed attempt again st idx out dialed reply =
      (p : Peer) × (rest : List Peer) × (get_elem? up.peers idx ≡ some p)
      × (dialed ≡ p ∷ rest)
      × ((rest ≡ [])
          ⊎ ((next_step method up idx attempt attempts ((env attempt).outcome p) ≡ Next.retry)
              × (again (retry_state attempt idx p st) ≡ some (out, rest, reply))))

  after_pick_inv :
      (attempt : ℕ) (again : PickState Inst → Run Inst) (st : PickState Inst) (pick : Pick)
      {out : PickState Inst} {dialed : List Peer} {reply : Reply}
      → after_pick show_ip method up env attempts attempt again st pick ≡ some (out, dialed, reply)
      → (dialed ≡ [])
        ⊎ ((idx : ℕ) × (pick ≡ Pick.peer idx) × Dialed attempt again st idx out dialed reply)
  unfolding after_pick
  after_pick_inv attempt again st (Pick.deny s) e = inl (ground arith)
  after_pick_inv attempt again st Pick.no_peer e = inl (ground arith)
  after_pick_inv attempt again st (Pick.peer idx) {out} {dialed} {reply} e =
      let (p, listed, k) = >>=-eq-some (get_elem? up.peers idx) _ e in
      let (rest, split, run) = dial_inv p _ k in
      inr (
        idx,
        refl,
        (
          p,
          rest,
          listed,
          split,
          ends p rest (next_step method up idx attempt attempts ((env attempt).outcome p)) refl run,
        ),
      )
    where
      ends :
          (p : Peer) (rest : List Peer) (n : Next)
          → next_step method up idx attempt attempts ((env attempt).outcome p) ≡ n
          → (let r : Run Inst = elim n [
            | Next.stop reply' ↦ some (
              settle_attempt up idx
                  (env attempt).ended
                  ((env attempt).outcome p)
                  (with_ctx st (record (ctx_of st) { peer_index = some (idx % u32_mod) })),
              [],
              reply',
            )
            | Next.retry ↦ again (retry_state attempt idx p st)
          ] in
              r)
            ≡ some (out, rest, reply)
          → (rest ≡ [])
            ⊎ ((next_step method up idx attempt attempts ((env attempt).outcome p) ≡ Next.retry)
                × (again (retry_state attempt idx p st) ≡ some (out, rest, reply)))
      ends p rest (Next.stop reply') e run = inl (ground arith)
      ends p rest Next.retry e run = inr (e, run)

  -- A round of the loop dials nobody, or it dials a usable peer and then ends or goes on.
  pub round_inv :
      (attempt left : ℕ) (st : PickState Inst) {out : PickState Inst} {dialed : List Peer}
      {reply : Reply}
      → attempt_loop show_ip method up env attempts attempt (suc left) st
        ≡ some (out, dialed, reply)
      → (dialed ≡ [])
        ⊎ ((idx : ℕ) × (mid : PickState Inst) × (p : Peer) × (rest : List Peer) × (dialed
              ≡ p ∷ rest)
            × (contains (ctx_of (phased (fresh attempt st))).tried p.addr ≡ false)
            × Taken up (phased (fresh attempt st)) mid p
            × ((rest ≡ [])
                ⊎ ((next_step method up idx attempt attempts ((env attempt).outcome p) ≡ Next.retry)
                    × (attempt_loop show_ip method up env attempts
                          (attempt + 1)
                          left
                          (retry_state attempt idx p mid)
                        ≡ some (out, rest, reply)))))
  unfolding attempt_loop
  round_inv attempt left st {out} {dialed} {reply} e =
      let (picked, e1, k) =
        >>=-eq-some
          (pick_peer show_ip up (env attempt).now_pin (env attempt).now (fresh attempt st)) _ e in
      elim (after_pick_inv attempt (attempt_loop show_ip method up env attempts (attempt + 1) left)
        picked.0 picked.1 k) [
          | inl nobody ↦ inl nobody
          | inr (idx, is_peer, (p, rest, listed, split, ends)) ↦
              let found = e1 ∙ ap (λ d. some (picked.0, d)) is_peer in
              let (q, usable, taken) =
                pick_peer-Taken show_ip up (env attempt).now_pin (env attempt).now
                  (fresh attempt st) found in
              let same : q ≡ p = some-injective q p (sym usable.listed ∙ listed) in
              inr (idx, picked.0, p, rest, split, rw same at usable.untried, rw same at taken, ends)
        ]
