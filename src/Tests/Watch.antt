-- ===== src/Tests/Watch.antt =====
-- Runs of the watch loop, and the witness of its theorem.
use openrusty.Prelude.{
  ◌≡◌, ◌⊎◌, refl, true, false, Option, none, some, List, [], ◌∷◌, ◌++◌, list_eq, nat_eq,
}
use openrusty.Prelude.Text.{Text, codes, trim, trim_start, is_whitespace}
use openrusty.Kube.{Secret, EventType, WatchEvent, secret_meta}
use openrusty.Kube.Snapshot.{ObjectKey, apply_event, replace_from_list}
use openrusty.Kube.Watch.{
  WatchOptions, WatchLoop, Watching, Stage, streaming, Input, listed, opened, frame, window_closed,
  resync_tick, start, step, turn, on_list, on_frame, on_window, on_resync, lines_from, trim_end_cr,
  parse_line, apply_parsed, apply_change, apply_lines,
}
use openrusty.Kube.Watch.Waits.{latest}
use openrusty.Kube.Watch.Fresh.{Reachable, started, turned, Reachable-latest}
use openrusty.Tests.Kube.{pem}

-- A server whose every event adds one secret.
abbrev read : Text → Option (WatchEvent Secret)
read text = some (record { event_type = EventType.added; object = pem })

abbrev opts : WatchOptions
opts = record { resync = some 30000 }

abbrev run : WatchLoop Secret → List (Input Secret) → Option (WatchLoop Secret)
run l [] = some l
run l (i ∷ is) = elim (step some read opts l i) [ none ↦ none | some m ↦ run m is ]

-- What a loop handed over last, what it has, and where it is.
abbrev view :
    Option (WatchLoop Secret)
    → Option (Option (List (ObjectKey × Secret)) × List (ObjectKey × Secret) × Stage)
view none = none
view (some l) = some (latest l, l.snap.items, l.stage)

abbrev the_pem : ObjectKey × Secret
the_pem = ((codes "web", codes "pem"), pem)

abbrev added : List (Input Secret)
added = listed [] (codes "5") ∷ opened ∷ window_closed ∷ frame (codes "{}\r\n") ∷ []

-- The event opens the window again, and its tick hands the secret over.
serves :
    view (run start (added ++ window_closed ∷ []))
    ≡ some (
      some (the_pem ∷ []),
      the_pem ∷ [],
      streaming (record { dirty = false; window = false; buf = [] }),
    )
unfolding turn on_list on_frame on_window lines_from trim_end_cr parse_line apply_parsed
    apply_change apply_lines apply_event replace_from_list trim trim_start is_whitespace
serves = refl

-- A resync that finds the secret in the window: the LIST is at the version of the event, so the loop does
-- not hand the secret over.
loses :
    view (
      run start
        (added ++ resync_tick ∷ listed (pem ∷ []) (codes "7") ∷ opened ∷ window_closed ∷ []))
    ≡ some (some [], the_pem ∷ [], streaming (record { dirty = false; window = false; buf = [] }))
unfolding turn on_list on_frame on_window on_resync lines_from trim_end_cr parse_line apply_parsed
    apply_change apply_lines apply_event replace_from_list trim trim_start is_whitespace
loses = refl

-- The loop after its first LIST, with its stream open, after its first hand-over, and after the event.
abbrev after_list : WatchLoop Secret
after_list = on_list some read start [] (codes "5")

abbrev fresh : Watching
fresh = record { dirty = true; window = true; buf = [] }

abbrev after_open : WatchLoop Secret
after_open = record after_list { stage = streaming fresh }

abbrev after_window : WatchLoop Secret
after_window = on_window some read after_open fresh

abbrev after_event : WatchLoop Secret
after_event =
    on_frame some read after_window (record { dirty = false; window = false; buf = [] })
      (codes "{}\r\n")

event_comes : Reachable some read opts after_event
unfolding turn on_list on_window
event_comes =
    turned after_window after_event (frame (codes "{}\r\n"))
      (turned after_open after_window window_closed
        (turned after_list after_open opened
          (turned start after_list (listed [] (codes "5")) started (λ h. absurd cc) refl) tt refl)
        tt refl)
      tt refl

waiting : after_event.stage ≡ streaming fresh
unfolding on_list on_frame on_window lines_from trim_end_cr parse_line apply_parsed apply_change
    apply_lines trim trim_start is_whitespace
waiting = refl

Reachable-latest_example :
    (latest after_event ≡ some after_event.snap.items)
    ⊎ ((m : WatchLoop Secret) × (step some read opts after_event window_closed ≡ some m)
        × (latest m ≡ some after_event.snap.items))
Reachable-latest_example = Reachable-latest some read opts after_event fresh event_comes waiting
