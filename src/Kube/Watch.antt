-- ===== src/Kube/Watch.antt =====
-- crates/openrusty-k8s/src/watch.rs: the watch loop as steps on the answers of the API server and the ticks
-- of its timers. `std::str::from_utf8` and the decoding of a JSON event are parameters; the clock of the
-- last successful LIST is left out.
pub mod Waits
pub mod Fresh
use openrusty.Prelude.{
  ◌≡◌, ℕ, ◌+◌, ◌*◌, ◌%◌, ◌^◌, min, Bool, true, false, not, ◌||◌, Option, none, some, List, [], ◌∷◌,
  ◌++◌, ◌==◌, if◌then◌else◌, option_beq, list_eq, nat_eq,
}
use openrusty.Prelude.Text.{Text, trim}
use openrusty.Kube.{ResourceMeta, EventType, WatchEvent}
use openrusty.Kube.Snapshot.{Snapshot, apply_event, replace_from_list}
use openrusty.Kube.Snapshot as Snapshot

-- In milliseconds.
abbrev pub backoff_base : ℕ
backoff_base = 100

abbrev pub backoff_cap : ℕ
backoff_cap = 30000

-- The saturation of the product lies beyond the cap.
unfoldable pub grow_backoff : ℕ → ℕ
grow_backoff d = min (d * 2) backoff_cap

-- The fields that the loop reads.
pub record WatchOptions : Type 0 where
  pub resync : Option ℕ

pub record WatchStats : Type 0 where
  pub generation : ℕ
  pub lists : ℕ
  pub reconnects : ℕ
  pub last_rv : Text

-- One more, in a `u64`.
abbrev pub count_up : ℕ → ℕ
count_up n = (n + 1) % 2 ^ 64

-- The variables of the watch phase: `dirty`, whether `deadline` is set, and `buf`.
pub record Watching : Type 0 where
  pub dirty : Bool
  pub window : Bool
  pub buf : List ℕ

pub data Stage : Type 0 where
  listing : Stage
  opening : Watching → Stage
  streaming : Watching → Stage

-- The variables of the loop, and what it handed over, the last one first.
pub record WatchLoop (T : Type 0) : Type 0 where
  pub stage : Stage
  pub backoff : ℕ
  pub stats : WatchStats
  pub snap : Snapshot T
  pub restart_rv : Option Text
  pub handed : List (Snapshot T × WatchStats)

-- What the loop waits for: the answer to a LIST, the answer to the opening of a stream, a frame or the end
-- of the stream, and the ticks of the window and of the resync.
pub data Input (T : Type 0) : Type 0 where
  list_failed : Input T
  listed : List T → Text → Input T
  open_failed : Input T
  opened : Input T
  frame : List ℕ → Input T
  stream_ended : Input T
  window_closed : Input T
  resync_tick : Input T

abbrev pub start : {T : Type 0} → WatchLoop T
start = record {
  stage = listing;
  backoff = backoff_base;
  stats = record { generation = 0; lists = 0; reconnects = 0; last_rv = [] };
  snap = Snapshot.new;
  restart_rv = none;
  handed = [];
}

-- `trim_end_matches('\r')`
unfoldable pub trim_end_cr : Text → Text
trim_end_cr [] = []
trim_end_cr (c ∷ cs) = elim (trim_end_cr cs) [
  | [] ↦ if c == 13 then [] else c ∷ []
  | d ∷ ds ↦ c ∷ d ∷ ds
]

module _ (from_utf8 : List ℕ → Option Text) where
  -- The lines of a buffer from the bytes of the line that has begun, and what is left of it.
  unfoldable pub lines_from : List ℕ → List ℕ → Option (List Text × List ℕ)
  lines_from line [] = some ([], line)
  lines_from line (b ∷ bytes) = elim (b == b'\n') [
    | false ↦ lines_from (line ++ b ∷ []) bytes
    | true ↦ elim (from_utf8 line) [
      | none ↦ none
      | some text ↦ elim (lines_from [] bytes) [
        | none ↦ none
        | some (lines, left) ↦ some (trim_end_cr text ∷ lines, left)
      ]
    ]
  ]

  abbrev pub take_lines : List ℕ → Option (List Text × List ℕ)
  take_lines buf = lines_from [] buf

module _ {T : Type 0} ⦃r : ResourceMeta T⦄ (from_utf8 : List ℕ → Option Text)
    (from_str : Text → Option (WatchEvent T)) where
  unfoldable pub parse_line : Text → Option (WatchEvent T)
  parse_line line = from_str (trim line)

  -- A change opens the window, or finds it open.
  unfoldable pub apply_change : EventType → Watching → Watching
  apply_change EventType.bookmark w = w
  apply_change _ w = record w { dirty = true; window = true }

  -- `none` where the line is unusable.
  unfoldable pub apply_parsed :
      Option (WatchEvent T) → Snapshot T → Watching → Option (Snapshot T × Watching)
  apply_parsed none snap w = none
  apply_parsed (some event) snap w = elim event.event_type [
    | EventType.error ↦ none
    | t ↦ some (apply_event snap event, apply_change t w)
  ]

  abbrev pub apply_line : Snapshot T → Watching → Text → Option (Snapshot T × Watching)
  apply_line snap w line = apply_parsed (parse_line line) snap w

  -- The lines of a frame, as far as they are usable, and whether all of them are.
  unfoldable pub apply_lines : List Text → Snapshot T → Watching → Snapshot T × Watching × Bool
  apply_lines [] snap w = (snap, w, true)
  apply_lines (line ∷ lines) snap w = elim (apply_line snap w line) [
    | none ↦ (snap, w, false)
    | some (next, v) ↦ apply_lines lines next v
  ]

  -- A failed LIST sleeps and tries again.
  abbrev pub pause : WatchLoop T → WatchLoop T
  pause l = record l { stage = listing; backoff = grow_backoff l.backoff }

  -- A stream that cannot be used: `continue 'outer`.
  abbrev pub reconnect : WatchLoop T → WatchLoop T
  reconnect l = record (pause l) {
    stats = record l.stats { reconnects = count_up l.stats.reconnects };
  }

  unfoldable pub on_list : WatchLoop T → List T → Text → WatchLoop T
  on_list l items version = record l {
    stage =
        opening (record {
          dirty = not (option_beq l.restart_rv (some version));
          window = true;
          buf = [];
        });
    backoff = backoff_base;
    stats = record l.stats { lists = count_up l.stats.lists; last_rv = version };
    snap = replace_from_list items version;
    restart_rv = none;
  }

  abbrev pub after_lines : WatchLoop T → Snapshot T × Watching × Bool → WatchLoop T
  after_lines l (snap, w, true) = record l { stage = streaming w; snap = snap }
  after_lines l (snap, w, false) = reconnect (record l { snap = snap })

  unfoldable pub on_frame : WatchLoop T → Watching → List ℕ → WatchLoop T
  on_frame l w data_ref = elim (take_lines from_utf8 (w.buf ++ data_ref)) [
    | none ↦ reconnect l
    | some (lines, left) ↦ after_lines l (apply_lines lines l.snap (record w { buf = left }))
  ]

  -- `on_snapshot`, where a change waits.
  abbrev pub hand_over : WatchLoop T → Bool → WatchLoop T
  hand_over l false = l
  hand_over l true =
      let stats = record l.stats {
        generation = count_up l.stats.generation;
        last_rv = l.snap.resource_version;
      } in
      record l { stats = stats; handed = (l.snap, stats) ∷ l.handed }

  unfoldable pub on_window : WatchLoop T → Watching → WatchLoop T
  on_window l w = record (hand_over l w.dirty) {
    stage = streaming (record w { dirty = false; window = false });
  }

  unfoldable pub on_resync : WatchLoop T → WatchLoop T
  on_resync l = record l { stage = listing; restart_rv = some l.snap.resource_version }

  abbrev pub is_set : {A : Type 0} → Option A → Bool
  is_set none = false
  is_set (some a) = true

  -- One turn of the loop, `none` where it does not wait for the input.
  unfoldable pub turn : WatchOptions → WatchLoop T → Stage → Input T → Option (WatchLoop T)
  turn opts l listing list_failed = some (pause l)
  turn opts l listing (listed items version) = some (on_list l items version)
  turn opts l (opening w) open_failed = some (reconnect l)
  turn opts l (opening w) opened = some (record l { stage = streaming w })
  turn opts l (streaming w) (frame data_ref) = some (on_frame l w data_ref)
  turn opts l (streaming w) stream_ended = some (reconnect l)
  turn opts l (streaming w) window_closed = if w.window then some (on_window l w) else none
  turn opts l (streaming w) resync_tick = if is_set opts.resync then some (on_resync l) else none
  turn opts l _ _ = none

  abbrev pub step : WatchOptions → WatchLoop T → Input T → Option (WatchLoop T)
  step opts l i = turn opts l l.stage i
