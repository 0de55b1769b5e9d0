-- ===== src/Kube/Watch/Waits.antt =====
-- What the waiting change of the watch loop of crates/openrusty-k8s/src/watch.rs comes to in a frame.
use openrusty.Prelude.{
  ◌≡◌, refl, inl, inr, true, false, Option, none, some, List, [], ◌∷◌, arith, subst, Option-cases,
  ℕ, list_eq, nat_eq,
}
use openrusty.Prelude.Text.{Text}
use openrusty.Kube.{ResourceMeta, EventType, WatchEvent}
use openrusty.Kube.Snapshot.{ObjectKey, Snapshot, apply_event}
use openrusty.Kube.Watch.{
  Watching, WatchLoop, apply_change, apply_parsed, apply_line, parse_line, apply_lines,
}

-- The objects that were handed over last.
abbrev pub latest : {T : Type 0} → WatchLoop T → Option (List (ObjectKey × T))
latest l = elim l.handed [ [] ↦ none | h ∷ hs ↦ some h.0.items ]

-- A change that waits has an open window; where none waits, the objects are those that were handed over.
abbrev pub Waits :
    {T : Type 0} → List (ObjectKey × T) → Option (List (ObjectKey × T)) → Watching → Type 0
Waits items shown w = (w.dirty ≡ true → w.window ≡ true) × (w.dirty ≡ false → shown ≡ some items)

module _ {T : Type 0} ⦃r : ResourceMeta T⦄ (from_utf8 : List ℕ → Option Text)
    (from_str : Text → Option (WatchEvent T)) where
  abbrev FoldWaits : Option (List (ObjectKey × T)) → Option (Snapshot T × Watching) → Type 0
  FoldWaits shown none = Unit {0}
  FoldWaits shown (some (next, v)) = Waits next.items shown v

  -- A bookmark keeps the objects, and every other event counts as a change.
  event-Waits :
      (t : EventType) (object : T) (snap : Snapshot T) (shown : Option (List (ObjectKey × T)))
      (w : Watching)
      → Waits snap.items shown w
      → FoldWaits shown (
          apply_parsed from_utf8 from_str
            (some (record { event_type = t; object = object }))
            snap
            w)
  unfolding apply_parsed apply_change apply_event
  event-Waits EventType.added object snap shown w waits = (λ h. refl, λ h. absurd cc)
  event-Waits EventType.modified object snap shown w waits = (λ h. refl, λ h. absurd cc)
  event-Waits EventType.deleted object snap shown w waits = (λ h. refl, λ h. absurd cc)
  event-Waits EventType.bookmark object snap shown w waits = ground arith
  event-Waits EventType.error object snap shown w waits = tt

  apply_parsed-Waits :
      (parsed : Option (WatchEvent T)) (snap : Snapshot T) (shown : Option (List (ObjectKey × T)))
      (w : Watching)
      → Waits snap.items shown w
      → FoldWaits shown (apply_parsed from_utf8 from_str parsed snap w)
  unfolding apply_parsed
  apply_parsed-Waits none snap shown w waits = tt
  apply_parsed-Waits (some event) snap shown w waits =
      event-Waits event.event_type event.object snap shown w waits

  pub apply_lines-Waits :
      (lines : List Text) (snap : Snapshot T) (shown : Option (List (ObjectKey × T))) (w : Watching)
      → Waits snap.items shown w
      → let (next, v, usable) = apply_lines from_utf8 from_str lines snap w in
        Waits next.items shown v
  unfolding apply_lines
  apply_lines-Waits [] snap shown w waits = waits
  apply_lines-Waits (line ∷ lines) snap shown w waits =
      elim (Option-cases (apply_line from_utf8 from_str snap w line)) [
        | inl unusable ↦ rw (apply_lines, unusable) waits
        | inr ((next, v), folded) ↦
            rw (apply_lines, folded)
              (apply_lines-Waits lines next shown v (
                subst (FoldWaits shown) folded
                  (apply_parsed-Waits (parse_line from_utf8 from_str line) snap shown w waits)))
      ]
