-- ===== src/Retry/Bounds.antt =====
-- The bound on the attempts of crates/openrusty-server/src/pipeline/mod.rs, and what a retry means
-- for a request that must not be sent twice.
use openrusty.Prelude.{
  ℕ, zero, suc, ◌+◌, ◌%◌, ◌<◌, ◌≤◌, ◌≡◌, refl, ap, ◌∙◌, false, inl, inr, some, List, ◌∷◌, arith,
  length, get_elem?, u32_mod,
}
use mathlib.Core.Option.{some-injective}
use openrusty.Picker.{Upstream, Peer, PickState}
use openrusty.Retry.{
  FailureKind, Method, Outcome, Attempt, Reply, Next, next_step, is_idempotent, may_retry,
  attempt_loop, proxy_attempts,
}
use openrusty.Retry.Rounds.{round_inv, retry_state}

module _ {Inst : Type 0} (show_ip : List ℕ → List ℕ) (method : Method) (up : Upstream)
    (env : ℕ → Attempt) (attempts : ℕ) where
  loop_bound :
      (attempt left : ℕ) (st : PickState Inst) {out : PickState Inst} {dialed : List Peer}
      {reply : Reply}
      → attempt_loop show_ip method up env attempts attempt left st ≡ some (out, dialed, reply)
      → length dialed ≤ left
  unfolding attempt_loop
  loop_bound attempt zero st e = ground arith
  loop_bound attempt (suc left) st {out} {dialed} {reply} e =
      elim (round_inv show_ip method up env attempts attempt left st e) [
        | inl nobody ↦ rw nobody (omega arith)
        | inr (idx, mid, p, rest, split, untried, taken, inl ends) ↦ rw (split, ends) (omega arith)
        | inr (idx, mid, p, rest, split, untried, taken, inr (retried, again)) ↦ rw split (
            omega (
              arith,
              loop_bound (attempt + 1) left
                  (retry_state show_ip method up env attempts attempt idx p mid) again,
            ))
      ]

-- A request dials at most `retries + 1` peers, whatever the peers answer and the plugins decide.
proxy_attempts_bound :
    {Inst : Type 0} (show_ip : List ℕ → List ℕ) (method : Method) (up : Upstream)
    (env : ℕ → Attempt) (st : PickState Inst) {out : PickState Inst} {dialed : List Peer}
    {reply : Reply}
    → proxy_attempts show_ip method up env st ≡ some (out, dialed, reply)
    → length dialed ≤ (up.retries + 1) % u32_mod
unfolding proxy_attempts
proxy_attempts_bound show_ip method up env st e =
    loop_bound show_ip method up env ((up.retries + 1) % u32_mod) 0 ((up.retries + 1) % u32_mod) st
      e

-- Only a failure to connect is retried where the method is not idempotent.
retry_means_connect :
    (method : Method) (up : Upstream) (idx attempt attempts : ℕ) (o : Outcome)
    → is_idempotent method ≡ false
    → next_step method up idx attempt attempts o ≡ Next.retry
    → o ≡ Outcome.failed FailureKind.connect
unfolding next_step may_retry
retry_means_connect method up idx attempt attempts (Outcome.answered s) once e =
    absurd (ground arith)
retry_means_connect method up idx attempt attempts (Outcome.failed FailureKind.connect) once e =
    refl
retry_means_connect method up idx attempt attempts (Outcome.failed FailureKind.sent) once e =
    absurd (ground arith)
retry_means_connect method up idx attempt attempts (Outcome.failed FailureKind.response) once e =
    absurd (ground arith)
retry_means_connect method up idx attempt attempts (Outcome.failed FailureKind.timeout) once e =
    absurd (ground arith)
retry_means_connect method up idx attempt attempts Outcome.timed_out once e = absurd (ground arith)

module _ {Inst : Type 0} (show_ip : List ℕ → List ℕ) (method : Method) (up : Upstream)
    (env : ℕ → Attempt) (attempts : ℕ) (once : is_idempotent method ≡ false) where
  loop_connects :
      (attempt left : ℕ) (st : PickState Inst) {out : PickState Inst} {dialed : List Peer}
      {reply : Reply}
      → attempt_loop show_ip method up env attempts attempt left st ≡ some (out, dialed, reply)
      → (k : ℕ) {p : Peer} → get_elem? dialed k ≡ some p
      → suc k < length dialed
      → (env (attempt + k)).outcome p ≡ Outcome.failed FailureKind.connect
  unfolding attempt_loop
  loop_connects attempt zero st e k at_k more =
      let short = loop_bound show_ip method up env attempts attempt 0 st e in absurd (omega arith)
  loop_connects attempt (suc left) st {out} {dialed} {reply} e k {p = q} at_k more =
      elim (round_inv show_ip method up env attempts attempt left st e) [
        | inl nobody ↦ absurd (omega (arith, (rw nobody at more)))
        | inr (idx, mid, p, rest, split, untried, taken, inl ends) ↦
            absurd (omega (arith, (rw (split ∙ ap (λ r. p ∷ r) ends) at more)))
        | inr (idx, mid, p, rest, split, untried, taken, inr (retried, again)) ↦
            later p rest idx retried
              (λ j r.
                loop_connects (attempt + 1) left
                  (retry_state show_ip method up env attempts attempt idx p mid) again j {p = r})
              k (rw split at at_k) (rw split at more)
      ]
    where
      later :
          (p : Peer) (rest : List Peer) (idx : ℕ)
          → next_step method up idx attempt attempts ((env attempt).outcome p) ≡ Next.retry
          → ((k : ℕ) (r : Peer)
              → get_elem? rest k ≡ some r
              → suc k < length rest
              → (env ((attempt + 1) + k)).outcome r ≡ Outcome.failed FailureKind.connect)
          → (k : ℕ) → get_elem? (p ∷ rest) k ≡ some q
          → suc k < suc (length rest)
          → (env (attempt + k)).outcome q ≡ Outcome.failed FailureKind.connect
      later p rest idx retried next zero at_k more =
          let same = some-injective p q at_k in
          let here : attempt + 0 ≡ attempt = omega arith in
          rw (here, ← same)
            (retry_means_connect method up idx attempt attempts ((env attempt).outcome p) once
              retried)
      later p rest idx retried next (suc k) at_k more =
          let shift : (attempt + 1) + k ≡ attempt + suc k = omega arith in
          rw shift at (next k q at_k (omega arith))

pub proxy_attempts_at_most_once :
    {Inst : Type 0} (show_ip : List ℕ → List ℕ) (method : Method) (up : Upstream)
    (env : ℕ → Attempt) (st : PickState Inst) {out : PickState Inst} {dialed : List Peer}
    {reply : Reply}
    → is_idempotent method ≡ false
    → proxy_attempts show_ip method up env st ≡ some (out, dialed, reply)
    → (k : ℕ) {p : Peer} → get_elem? dialed k ≡ some p
    → suc k < length dialed
    → (env k).outcome p ≡ Outcome.failed FailureKind.connect
unfolding proxy_attempts
proxy_attempts_at_most_once show_ip method up env st once e k {p} at_k more =
    let start : 0 + k ≡ k = omega arith in
    rw start at (
      loop_connects show_ip method up env ((up.retries + 1) % u32_mod) once 0
        ((up.retries + 1) % u32_mod) st e k at_k more)
