-- ===== src/Kube/Snapshot.antt =====
-- crates/openrusty-k8s/src/snapshot.rs: the snapshot of a watched resource and the fold of its events;
-- `fold_slot` of crates/openrusty-server/src/ingress/mod.rs. The map is in the order of its keys.
pub mod Fold
use openrusty.Prelude.{
  ℕ, Bool, ◌&&◌, ◌||◌, Option, none, some, List, [], ◌∷◌, ◌++◌, map, set, if◌then◌else◌, list_beq,
  nat_eq, list_eq, pair_eq,
}
use openrusty.Prelude.Text.{Text, is_empty}
use openrusty.Prelude.Assoc.{get, remove}
use openrusty.Prelude.Ordered.{put, text_lt}
use openrusty.Kube.{ObjectMeta, ResourceMeta, EventType, WatchEvent}

-- Namespace and name.
abbrev pub ObjectKey : Type 0
ObjectKey = Text × Text

abbrev pub key_lt : ObjectKey → ObjectKey → Bool
key_lt (ns, name) (ns', name') = text_lt ns ns' || list_beq ns ns' && text_lt name name'

pub record Snapshot (T : Type 0) : Type 0 where
  pub items : List (ObjectKey × T)
  pub resource_version : Text

abbrev pub new : {T : Type 0} → Snapshot T
new = record { items = []; resource_version = [] }

module _ {T : Type 0} ⦃r : ResourceMeta T⦄ where
  abbrev pub key_of : T → ObjectKey
  key_of object = ((r.meta object).namespace, (r.meta object).name)

  -- The closure `advance`.
  abbrev pub advance : Snapshot T → T → Snapshot T
  advance snap object =
      if is_empty (r.meta object).resource_version
      then snap
      else record snap { resource_version = (r.meta object).resource_version }

  abbrev pub apply_typed : EventType → Snapshot T → T → Snapshot T
  apply_typed EventType.added snap object = record (advance snap object) {
    items = put key_lt (key_of object) object snap.items;
  }
  apply_typed EventType.modified snap object = record (advance snap object) {
    items = put key_lt (key_of object) object snap.items;
  }
  apply_typed EventType.deleted snap object = record (advance snap object) {
    items = remove (key_of object) snap.items;
  }
  apply_typed EventType.bookmark snap object = advance snap object
  apply_typed EventType.error snap object = snap

  unfoldable pub apply_event : Snapshot T → WatchEvent T → Snapshot T
  apply_event snap event = apply_typed event.event_type snap event.object

  abbrev pub put_all : List T → List (ObjectKey × T) → List (ObjectKey × T)
  put_all [] items = items
  put_all (object ∷ objects) items = put_all objects (put key_lt (key_of object) object items)

  unfoldable pub replace_from_list : List T → Text → Snapshot T
  replace_from_list objects version = record {
    items = put_all objects [];
    resource_version = version;
  }

-- The slots that hold a snapshot, in order: `guard.iter().flatten()`, and their items.
abbrev pub slot_items : {T : Type 0} → List (Option (Snapshot T)) → List T
slot_items [] = []
slot_items (none ∷ slots) = slot_items slots
slot_items (some snap ∷ slots) = map (λ item. item.1) snap.items ++ slot_items slots

-- The slots after a hand-over of loop `index`, and the combined snapshot.
unfoldable pub fold_slot :
    {T : Type 0} ⦃r : ResourceMeta T⦄
    → List (Option (Snapshot T))
    → ℕ
    → Snapshot T
    → List (Option (Snapshot T)) × Snapshot T
fold_slot slots index incoming =
    let next = set slots index (some incoming) in
    (next, replace_from_list (slot_items next) incoming.resource_version)
