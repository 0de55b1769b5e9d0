-- ===== src/Store/Snapshot.antt =====
-- What a snapshot of crates/openrusty-wasm/src/host_state.rs holds: the live entries under a prefix,
-- by key.
use openrusty.Prelude.{
  ℕ, ◌≡◌, refl, ap, ◌∙◌, Bool, true, false, not, ◌&&◌, inl, inr, Option, none, some, List, [], ◌∷◌,
  arith, select, map, contains, list_eq, list_beq, list_beq_iff, pair_eq, nat_eq, Bool-cases,
}
use openrusty.Prelude.Assoc.{get}
use openrusty.Prelude.Text.{starts_with}
use openrusty.Store.{Bytes, KvEntry, HostState, is_expired}
use openrusty.Prelude.Maps.{Unique}
use openrusty.Store.Scan.{kv_scan, sort_by_key, insert_by_key, bytes_le}

bytes_le_total : (xs ys : Bytes) → bytes_le xs ys ≡ false → bytes_le ys xs ≡ true
unfolding bytes_le
bytes_le_total [] ys h = cc
bytes_le_total (x ∷ xs) [] h = refl
bytes_le_total (x ∷ xs) (y ∷ ys) h = ground (arith, bytes_le_total xs ys)

-- Every key is at most the next one.
abbrev pub IsSorted : List (Bytes × Bytes) → Type 0
IsSorted [] = Unit
IsSorted (e ∷ []) = Unit
IsSorted (e ∷ f ∷ fs) = (bytes_le e.0 f.0 ≡ true) × IsSorted (f ∷ fs)

insert-IsSorted :
    (e : Bytes × Bytes) (fs : List (Bytes × Bytes)) → IsSorted fs → IsSorted (insert_by_key e fs)
unfolding insert_by_key
insert-IsSorted e [] h = tt
insert-IsSorted e (f ∷ []) h = ground (arith, bytes_le_total e.0 f.0)
insert-IsSorted e (f ∷ g ∷ gs) h =
    ground (arith, bytes_le_total e.0 f.0, insert-IsSorted e (g ∷ gs) h.1)

sort-IsSorted : (es : List (Bytes × Bytes)) → IsSorted (sort_by_key es)
unfolding sort_by_key
sort-IsSorted [] = tt
sort-IsSorted (e ∷ es) = insert-IsSorted e (sort_by_key es) (sort-IsSorted es)

contains-insert :
    (e x : Bytes × Bytes) (fs : List (Bytes × Bytes))
    → contains (insert_by_key e fs) x ≡ contains (e ∷ fs) x
unfolding insert_by_key
contains-insert e x [] = refl
contains-insert e x (f ∷ fs) = elim (Bool-cases (bytes_le e.0 f.0)) [
  | inl before ↦ ground arith
  | inr after ↦ ground (arith, contains-insert e x fs)
]

contains-sort :
    (x : Bytes × Bytes) (es : List (Bytes × Bytes)) → contains (sort_by_key es) x ≡ contains es x
unfolding sort_by_key
contains-sort x [] = refl
contains-sort x (e ∷ es) = ground (arith, contains-insert e x (sort_by_key es), contains-sort x es)

-- A key has this value at a clock reading.
abbrev pub has_value : Option KvEntry → Bytes → ℕ → Bool
has_value none v now = false
has_value (some e) v now = not (is_expired e.expires_at now) && list_beq e.value v

-- What a scan for a prefix keeps of the entries.
abbrev picked : Bytes → ℕ → List (Bytes × KvEntry) → List (Bytes × Bytes)
picked prefix now m =
    map (λ e. (e.0, e.1.value))
      (select (λ e. starts_with e.0 prefix && not (is_expired e.1.expires_at now)) m)

contains-picked :
    (prefix : Bytes) (now : ℕ) (k v : Bytes) (m : List (Bytes × KvEntry))
    → Unique m
    → contains (picked prefix now m) (k, v) ≡ (starts_with k prefix && has_value (get k m) v now)
unfolding get
contains-picked prefix now k v [] u = ground arith
contains-picked prefix now k v ((j, f) ∷ m) u = elim (Bool-cases (list_beq j k)) [
  | inl same ↦
      let at_j : j ≡ k = (list_beq_iff j k).0 same in
      ground (
        arith,
        at_j,
        ap (λ x. get x m) at_j,
        ap (λ x. starts_with x prefix) at_j,
        contains-picked prefix now k v m u.1,
      )
  | inr other ↦ ground (arith, contains-picked prefix now k v m u.1)
]

-- A snapshot lists the keys in ascending order, and it holds a key with a value exactly if the key
-- starts with the prefix and has that value, not expired.
pub kv_scan_lem :
    (s : HostState) (prefix : Bytes) (now : ℕ) (k v : Bytes)
    → Unique s.kv
    → IsSorted (kv_scan s prefix now)
      × (contains (kv_scan s prefix now) (k, v)
          ≡ (starts_with k prefix && has_value (get k s.kv) v now))
unfolding kv_scan
kv_scan_lem s prefix now k v u = (
  sort-IsSorted (picked prefix now s.kv),
  contains-sort (k, v) (picked prefix now s.kv) ∙ contains-picked prefix now k v s.kv u,
)
