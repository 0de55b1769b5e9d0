-- ===== src/Retry.antt =====
-- The proxy attempts of one request: step 10 of `handle_request` and `may_retry_timeout` in
-- crates/openrusty-server/src/pipeline/mod.rs, and the retry gate of
-- crates/openrusty-proxy/src/forward.rs. The network is a parameter: what became of an attempt at a
-- peer, and the clock readings of each attempt. A request that is cancelled while it waits for a
-- peer is not modelled; metrics and log lines are left out.
pub mod Rounds
pub mod Once
pub mod Bounds
use openrusty.Prelude.{
  ℕ, zero, suc, ◌+◌, ◌%◌, ◌<◌, Bool, true, false, ◌&&◌, Option, none, some, List, [], ◌∷◌, String,
  ltb, if◌then◌else◌, get_elem?, ◌>>=◌, u32_mod,
}
use openrusty.Health.{SocketAddr, record_success, record_failure}
use openrusty.Picker.{
  Upstream, Peer, ReqCtx, Pick, PickState, ctx_of, with_ctx, mark_tried, pick_peer, release_peer,
}

pub data FailureKind : Type 0 where
  connect sent response timeout : FailureKind

-- The request methods, by what the retry gate asks of them.
pub data Method : Type 0 where
  get head options trace : Method
  other : String → Method

unfoldable pub is_idempotent : Method → Bool
is_idempotent (Method.other name) = false
is_idempotent _ = true

abbrev pub is_connect : FailureKind → Bool
is_connect FailureKind.connect = true
is_connect _ = false

-- Every failure but an unusable response.
abbrev pub is_replayable : FailureKind → Bool
is_replayable FailureKind.response = false
is_replayable _ = true

unfoldable pub may_retry : Method → FailureKind → Bool
unfolding is_idempotent
may_retry method kind = if is_idempotent method then is_replayable kind else is_connect kind

unfoldable pub may_retry_timeout : Bool → ℕ → ℕ → Bool
may_retry_timeout retry_on_timeout attempt attempts = retry_on_timeout && ltb (attempt + 1) attempts

-- What became of a forwarded request: a response, a transport failure (of a kind other than a
-- timeout) or the route timeout.
pub data Outcome : Type 0 where
  answered : ℕ → Outcome
  failed : FailureKind → Outcome
  timed_out : Outcome

-- One attempt's clock readings and what comes back from the peer that it dials.
pub record Attempt : Type 0 where
  pub now_pin : ℕ
  pub now : ℕ
  pub ended : ℕ
  pub outcome : Peer → Outcome

-- The response of a peer, or the reply that the gateway gives itself.
pub data Reply : Type 0 where
  answered : ℕ → ℕ → Reply
  denied : ℕ → Reply
  no_healthy_upstream upstream_error upstream_timeout no_response : Reply

-- What the request does after an attempt.
pub data Next : Type 0 where
  stop : Reply → Next
  retry : Next

-- The decision after an attempt at peer `idx`.
unfoldable pub next_step : Method → Upstream → ℕ → ℕ → ℕ → Outcome → Next
unfolding may_retry may_retry_timeout
next_step method up idx attempt attempts (Outcome.answered status) =
    Next.stop (Reply.answered idx status)
next_step method up idx attempt attempts (Outcome.failed kind) =
    if may_retry method kind then Next.retry else Next.stop Reply.upstream_error
next_step method up idx attempt attempts Outcome.timed_out =
    if may_retry method FailureKind.timeout
      && may_retry_timeout up.retry_on_timeout attempt attempts
    then Next.retry
    else Next.stop Reply.upstream_timeout

module _ {Inst : Type 0} where
  -- The health records after an attempt, and the release of its in-flight slot.
  unfoldable pub settle_attempt : Upstream → ℕ → ℕ → Outcome → PickState Inst → PickState Inst
  settle_attempt up idx ended (Outcome.answered status) st = record st {
    health = release_peer (record_success st.health up.name idx ended) up idx;
  }
  settle_attempt up idx ended _ st = record st {
    health = release_peer (record_failure st.health up.name idx up.health ended) up idx;
  }

-- The state, the peers dialed so far in order, and the reply. A `none` is a panic.
abbrev pub Run : Type 0 → Type 0
Run Inst = Option (PickState Inst × List Peer × Reply)

abbrev pub dial : {Inst : Type 0} → Peer → Run Inst → Run Inst
dial p none = none
dial p (some (st, dialed, reply)) = some (st, p ∷ dialed, reply)

module _ {Inst : Type 0} (show_ip : List ℕ → List ℕ) (method : Method) (up : Upstream)
    (env : ℕ → Attempt) (attempts : ℕ) where
  -- After the pick of an attempt; `again` is what a retry does.
  unfoldable pub after_pick : ℕ → (PickState Inst → Run Inst) → PickState Inst → Pick → Run Inst
  unfolding next_step settle_attempt
  after_pick attempt again st (Pick.deny s) = some (st, [], Reply.denied s)
  after_pick attempt again st Pick.no_peer = some (st, [], Reply.no_healthy_upstream)
  after_pick attempt again st (Pick.peer idx) = do
    p ← get_elem? up.peers idx
    let st' = with_ctx st (record (ctx_of st) { peer_index = some (idx % u32_mod) })
    let outcome = (env attempt).outcome p
    let settled = settle_attempt up idx (env attempt).ended outcome st'
    dial p (elim (next_step method up idx attempt attempts outcome) [
      | Next.stop reply ↦ some (settled, [], reply)
      | Next.retry ↦ again (with_ctx settled (mark_tried (ctx_of settled) p.addr))
    ])

  -- `for attempt in 0..attempts`; the second number counts the rounds that are left.
  unfoldable pub attempt_loop : ℕ → ℕ → PickState Inst → Run Inst
  unfolding after_pick
  attempt_loop attempt zero st = some (st, [], Reply.no_response)
  attempt_loop attempt (suc left) st = do
    let fresh =
        with_ctx st (record (ctx_of st) { attempts = (attempt + 1) % u32_mod; peer_index = none })
    (st', pick) ← pick_peer show_ip up (env attempt).now_pin (env attempt).now fresh
    after_pick attempt (attempt_loop (attempt + 1) left) st' pick

-- All attempts: `retries + 1` of them, in `u32`.
unfoldable pub proxy_attempts :
    {Inst : Type 0}
    → (List ℕ → List ℕ)
    → Method
    → Upstream
    → (ℕ → Attempt)
    → PickState Inst
    → Run Inst
unfolding attempt_loop
proxy_attempts show_ip method up env st =
    let attempts = (up.retries + 1) % u32_mod in
    attempt_loop show_ip method up env attempts 0 attempts st
