-- ===== src/Kube/Watch/Fresh.antt =====
-- What the watch loop of crates/openrusty-k8s/src/watch.rs has handed over, at every point of a run.
use openrusty.Prelude.{
  ◌≡◌, refl, sym, ap, ◌∙◌, ◌⊎◌, inl, inr, Bool, true, false, Option, none, some, List, ◌++◌,
  if◌then◌else◌, option_beq_iff, arith, subst, Bool-cases, Option-cases, ◌≤◌, ℕ, list_eq, nat_eq,
}
use openrusty.Prelude.Text.{Text}
use openrusty.Kube.{ResourceMeta, WatchEvent}
use openrusty.Kube.Snapshot.{Snapshot, replace_from_list}
use openrusty.Kube.Watch.{
  backoff_base, backoff_cap, grow_backoff, WatchOptions, Watching, Stage, listing, opening,
  streaming, WatchLoop, Input, list_failed, listed, open_failed, opened, frame, stream_ended,
  window_closed, resync_tick, start, take_lines, apply_lines, reconnect, on_list, after_lines,
  on_frame, hand_over, on_window, is_set, on_resync, turn, step,
}
use openrusty.Kube.Watch.Waits.{latest, Waits, apply_lines-Waits}

abbrev pub StageFresh : {T : Type 0} → WatchLoop T → Stage → Type 0
StageFresh l listing = (version : Text) → l.restart_rv ≡ some version → latest l ≡ some l.snap.items
StageFresh l (opening w) = (l.restart_rv ≡ none) × Waits l.snap.items (latest l) w
StageFresh l (streaming w) = (l.restart_rv ≡ none) × Waits l.snap.items (latest l) w

abbrev pub IsPaced : ℕ → Type 0
IsPaced d = (backoff_base ≤ d) × (d ≤ backoff_cap)

abbrev pub IsFresh : {T : Type 0} → WatchLoop T → Type 0
IsFresh l = StageFresh l l.stage × IsPaced l.backoff

module _ {T : Type 0} ⦃r : ResourceMeta T⦄ (from_utf8 : List ℕ → Option Text)
    (from_str : Text → Option (WatchEvent T)) where
  -- The tick of a resync finds no change that waits, and a LIST at the version that the loop left for a
  -- resync lists the objects that the loop has.
  abbrev pub CalmAt : WatchLoop T → Stage → Input T → Type 0
  CalmAt l (streaming w) resync_tick = w.dirty ≡ false
  CalmAt l listing (listed items version) =
      l.restart_rv ≡ some version → (replace_from_list items version).items ≡ l.snap.items
  CalmAt l _ _ = Unit {0}

  -- The loops that a run comes to.
  pub data Reachable (opts : WatchOptions) : WatchLoop T → Type 0 where
    started : Reachable opts start
    turned :
        (l m : WatchLoop T) (i : Input T)
        → Reachable opts l
        → CalmAt l l.stage i
        → step from_utf8 from_str opts l i ≡ some m
        → Reachable opts m

  grow_backoff-IsPaced : (d : ℕ) → IsPaced d → IsPaced (grow_backoff d)
  unfolding grow_backoff
  grow_backoff-IsPaced d (low, high) = (ground arith, ground arith)

  reconnect-IsFresh :
      (l : WatchLoop T)
      → l.restart_rv ≡ none
      → IsPaced l.backoff
      → IsFresh (reconnect from_utf8 from_str l)
  reconnect-IsFresh l unset paced = (λ version h. absurd cc, grow_backoff-IsPaced l.backoff paced)

  after_lines-IsFresh :
      (l : WatchLoop T) (result : Snapshot T × Watching × Bool)
      → l.restart_rv ≡ none
      → IsPaced l.backoff
      → Waits result.0.items (latest l) result.1
      → IsFresh (after_lines from_utf8 from_str l result)
  after_lines-IsFresh l (snap, w, true) unset paced waits = ((unset, waits), paced)
  after_lines-IsFresh l (snap, w, false) unset paced waits =
      reconnect-IsFresh (record l { snap = snap }) unset paced

  on_frame-IsFresh :
      (l : WatchLoop T) (w : Watching) (data_ref : List ℕ)
      → StageFresh l (streaming w)
      → IsPaced l.backoff
      → IsFresh (on_frame from_utf8 from_str l w data_ref)
  unfolding on_frame
  on_frame-IsFresh l w data_ref (unset, waits) paced =
      elim (Option-cases (take_lines from_utf8 (w.buf ++ data_ref))) [
        | inl broken ↦ rw (on_frame, broken) (reconnect-IsFresh l unset paced)
        | inr ((lines, left), split) ↦
            rw (on_frame, split)
              (after_lines-IsFresh l
                (apply_lines from_utf8 from_str lines l.snap (record w { buf = left })) unset paced
                (apply_lines-Waits from_utf8 from_str lines l.snap (latest l)
                  (record w { buf = left }) waits))
      ]

  handed-IsFresh :
      (l : WatchLoop T) (waiting : Bool) (buf : List ℕ)
      → l.restart_rv ≡ none
      → IsPaced l.backoff
      → (waiting ≡ false → latest l ≡ some l.snap.items)
      → IsFresh (record (hand_over from_utf8 from_str l waiting) {
        stage = streaming (record { dirty = false; window = false; buf = buf });
      })
  handed-IsFresh l false buf unset paced shown =
      ((unset, ((λ h. absurd cc), λ h. shown refl)), paced)
  handed-IsFresh l true buf unset paced shown = ((unset, ((λ h. absurd cc), λ h. refl)), paced)

  on_window-IsFresh :
      (l : WatchLoop T) (w : Watching)
      → StageFresh l (streaming w)
      → IsPaced l.backoff
      → IsFresh (on_window from_utf8 from_str l w)
  unfolding on_window
  on_window-IsFresh l w (unset, (opens, shown)) paced =
      handed-IsFresh l w.dirty w.buf unset paced shown

  latest-hand_over :
      (l : WatchLoop T) (waiting : Bool)
      → (waiting ≡ false → latest l ≡ some l.snap.items)
      → latest (hand_over from_utf8 from_str l waiting) ≡ some l.snap.items
  latest-hand_over l false shown = shown refl
  latest-hand_over l true shown = refl

  latest-on_window :
      (l : WatchLoop T) (w : Watching)
      → (w.dirty ≡ false → latest l ≡ some l.snap.items)
      → latest (on_window from_utf8 from_str l w) ≡ some l.snap.items
  unfolding on_window
  latest-on_window l w shown = latest-hand_over l w.dirty shown

  on_list-IsFresh :
      (l : WatchLoop T) (items : List T) (version : Text)
      → StageFresh l listing
      → CalmAt l listing (listed items version)
      → IsFresh (on_list from_utf8 from_str l items version)
  unfolding on_list
  on_list-IsFresh l items version left calm = (
    (
      refl,
      (
        (λ h. refl),
        λ h.
            let same = (option_beq_iff l.restart_rv (some version)).0 (ground arith) in
            left version same ∙ sym (ap some (calm same)),
      ),
    ),
    (omega arith, omega arith),
  )

  some_if : (b : Bool) {l m : WatchLoop T} → (if b then some l else none) ≡ some m → some l ≡ some m
  some_if true h = h
  some_if false h = absurd cc

  given : {l m : WatchLoop T} → some l ≡ some m → IsFresh l → IsFresh m
  given {l = l} {m = m} h fresh = let e : l ≡ m = cc in subst (λ x. IsFresh x) e fresh

  turn-IsFresh :
      (opts : WatchOptions) (l m : WatchLoop T) (stage : Stage) (i : Input T)
      → StageFresh l stage
      → IsPaced l.backoff
      → CalmAt l stage i
      → turn from_utf8 from_str opts l stage i ≡ some m
      → IsFresh m
  unfolding turn on_resync
  turn-IsFresh opts l m listing list_failed left paced calm h =
      given h (left, grow_backoff-IsPaced l.backoff paced)
  turn-IsFresh opts l m listing (listed items version) left paced calm h =
      given h (on_list-IsFresh l items version left calm)
  turn-IsFresh opts l m listing open_failed left paced calm h = absurd cc
  turn-IsFresh opts l m listing opened left paced calm h = absurd cc
  turn-IsFresh opts l m listing (frame data_ref) left paced calm h = absurd cc
  turn-IsFresh opts l m listing stream_ended left paced calm h = absurd cc
  turn-IsFresh opts l m listing window_closed left paced calm h = absurd cc
  turn-IsFresh opts l m listing resync_tick left paced calm h = absurd cc
  turn-IsFresh opts l m (opening w) list_failed fresh paced calm h = absurd cc
  turn-IsFresh opts l m (opening w) (listed items version) fresh paced calm h = absurd cc
  turn-IsFresh opts l m (opening w) open_failed (unset, waits) paced calm h =
      given h (reconnect-IsFresh l unset paced)
  turn-IsFresh opts l m (opening w) opened fresh paced calm h = given h (fresh, paced)
  turn-IsFresh opts l m (opening w) (frame data_ref) fresh paced calm h = absurd cc
  turn-IsFresh opts l m (opening w) stream_ended fresh paced calm h = absurd cc
  turn-IsFresh opts l m (opening w) window_closed fresh paced calm h = absurd cc
  turn-IsFresh opts l m (opening w) resync_tick fresh paced calm h = absurd cc
  turn-IsFresh opts l m (streaming w) list_failed fresh paced calm h = absurd cc
  turn-IsFresh opts l m (streaming w) (listed items version) fresh paced calm h = absurd cc
  turn-IsFresh opts l m (streaming w) open_failed fresh paced calm h = absurd cc
  turn-IsFresh opts l m (streaming w) opened fresh paced calm h = absurd cc
  turn-IsFresh opts l m (streaming w) (frame data_ref) fresh paced calm h =
      given h (on_frame-IsFresh l w data_ref fresh paced)
  turn-IsFresh opts l m (streaming w) stream_ended (unset, waits) paced calm h =
      given h (reconnect-IsFresh l unset paced)
  turn-IsFresh opts l m (streaming w) window_closed fresh paced calm h =
      given (some_if w.window h) (on_window-IsFresh l w fresh paced)
  turn-IsFresh opts l m (streaming w) resync_tick (unset, (opens, shown)) paced calm h =
      given (some_if (is_set from_utf8 from_str opts.resync) h) ((λ version e. shown calm), paced)

  Reachable-IsFresh : (opts : WatchOptions) (l : WatchLoop T) → Reachable opts l → IsFresh l
  Reachable-IsFresh opts _ started = ((λ version h. absurd cc), (omega arith, omega arith))
  Reachable-IsFresh opts _ (turned l m i reached calm h) =
      let (fresh, paced) = Reachable-IsFresh opts l reached in
      turn-IsFresh opts l m l.stage i fresh paced calm h

  -- Watching a stream, at any point of a run in which no tick of the resync finds a change that waits and
  -- a LIST at the version that the loop left for a resync finds what the loop has: either the objects of
  -- the cluster that the loop knows are those that it handed over last, or its window is open, and the
  -- tick of the window, which the loop then waits for, hands them over.
  pub Reachable-latest :
      (opts : WatchOptions) (l : WatchLoop T) (w : Watching)
      → Reachable opts l
      → l.stage ≡ streaming w
      → (latest l ≡ some l.snap.items)
        ⊎ ((m : WatchLoop T) × (step from_utf8 from_str opts l window_closed ≡ some m)
            × (latest m ≡ some l.snap.items))
  unfolding turn
  Reachable-latest opts l w reached streams =
      let (fresh, paced) = Reachable-IsFresh opts l reached in
      let (unset, (opens, shown)) = subst (StageFresh l) streams fresh in
      elim (Bool-cases w.dirty) [
        | inr clean ↦ inl (shown clean)
        | inl waits ↦ inr (
          on_window from_utf8 from_str l w,
          rw (streams, opens waits) refl,
          latest-on_window l w shown,
        )
      ]
