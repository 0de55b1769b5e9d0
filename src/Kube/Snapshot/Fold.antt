-- ===== src/Kube/Snapshot/Fold.antt =====
-- What a snapshot of crates/openrusty-k8s/src/snapshot.rs holds after any events.
use openrusty.Prelude.{
  ◌≡◌, refl, Option, none, some, List, [], ◌∷◌, if◌then◌else◌, arith, pair_eq, list_eq, nat_eq,
}
use openrusty.Prelude.Text.{Text}
use openrusty.Prelude.Assoc.{get, get-remove}
use openrusty.Prelude.Ordered.{put, get-put}
use openrusty.Kube.{ResourceMeta, EventType, WatchEvent}
use openrusty.Kube.Snapshot.{
  ObjectKey, key_lt, Snapshot, key_of, apply_typed, apply_event, put_all, replace_from_list,
}

abbrev pub apply_events :
    {T : Type 0} ⦃r : ResourceMeta T⦄ → Snapshot T → List (WatchEvent T) → Snapshot T
apply_events snap [] = snap
apply_events snap (event ∷ events) = apply_events (apply_event snap event) events

-- What a type of event says of its object: nothing, there, or gone.
abbrev pub said : {T : Type 0} → EventType → T → Option (Option T)
said EventType.added object = some (some object)
said EventType.modified object = some (some object)
said EventType.deleted object = some none
said EventType.bookmark object = none
said EventType.error object = none

abbrev pub or_else : {A : Type 0} → Option A → A → A
or_else none a = a
or_else (some b) a = b

module _ {T : Type 0} ⦃r : ResourceMeta T⦄ where
  abbrev pub word : ObjectKey → WatchEvent T → Option (Option T)
  word key event =
      if pair_eq.beq (key_of event.object) key then said event.event_type event.object else none

  -- The last word of some events on a key.
  abbrev pub last_word : ObjectKey → List (WatchEvent T) → Option (Option T)
  last_word key [] = none
  last_word key (event ∷ events) = elim (last_word key events) [
    | some w ↦ some w
    | none ↦ word key event
  ]

  -- The last object of a list under a key.
  abbrev pub last_listed : ObjectKey → List T → Option T
  last_listed key [] = none
  last_listed key (object ∷ objects) = elim (last_listed key objects) [
    | some later ↦ some later
    | none ↦ if pair_eq.beq (key_of object) key then some object else none
  ]

  get-apply_typed :
      (key : ObjectKey) (t : EventType) (snap : Snapshot T) (object : T)
      → get key (apply_typed t snap object).items ≡ (
          if pair_eq.beq (key_of object) key
          then or_else (said t object) (get key snap.items)
          else get key snap.items)
  get-apply_typed key EventType.added snap object =
      ground (arith, get-put key_lt (key_of object) key object snap.items)
  get-apply_typed key EventType.modified snap object =
      ground (arith, get-put key_lt (key_of object) key object snap.items)
  get-apply_typed key EventType.deleted snap object =
      ground (arith, get-remove (key_of object) key snap.items)
  get-apply_typed key EventType.bookmark snap object = ground arith
  get-apply_typed key EventType.error snap object = ground arith

  get-apply_event :
      (key : ObjectKey) (snap : Snapshot T) (event : WatchEvent T)
      → get key (apply_event snap event).items ≡ or_else (word key event) (get key snap.items)
  unfolding apply_event
  get-apply_event key snap event =
      ground (arith, get-apply_typed key event.event_type snap event.object)

  get-apply_events :
      (key : ObjectKey) (events : List (WatchEvent T)) (snap : Snapshot T)
      → get key (apply_events snap events).items
        ≡ or_else (last_word key events) (get key snap.items)
  get-apply_events key [] snap = refl
  get-apply_events key (event ∷ events) snap =
      ground (
        arith,
        get-apply_events key events (apply_event snap event),
        get-apply_event key snap event,
      )

  get-put_all :
      (key : ObjectKey) (objects : List T) (items : List (ObjectKey × T))
      → get key (put_all objects items)
        ≡ (elim (last_listed key objects) [ some object ↦ some object | none ↦ get key items ])
  get-put_all key [] items = refl
  get-put_all key (object ∷ objects) items = ground (
    arith,
    get-put_all key objects (put key_lt (key_of object) object items),
    get-put key_lt (key_of object) key object items,
  )

  -- After a list of objects and any events, a snapshot holds under each key what the last event on the key
  -- says, and where no event says anything the last object of the list under it.
  pub get-apply_events-replace_from_list :
      (key : ObjectKey) (objects : List T) (version : Text) (events : List (WatchEvent T))
      → get key (apply_events (replace_from_list objects version) events).items
        ≡ or_else (last_word key events) (last_listed key objects)
  unfolding replace_from_list get
  get-apply_events-replace_from_list key objects version events = ground (
    arith,
    get-apply_events key events (replace_from_list objects version),
    get-put_all key objects [],
  )
