-- ===== src/Store/Valid.antt =====
-- The quotas of crates/openrusty-wasm/src/host_state.rs, over every sequence of its operations.
use openrusty.Prelude.{
  ℕ, ◌+◌, ◌-◌, ◌^◌, ◌≤◌, ◌<◌, ◌≡◌, refl, ap, inl, inr, some, List, [], ◌∷◌, arith, length, select,
  Bool-cases, Option-cases, list_eq, nat_eq, list_beq, list_beq_iff,
}
use openrusty.Prelude.Int.{ℤ}
use openrusty.Prelude.Assoc.{get, insert, remove}
use openrusty.Store.{
  Bytes, KvEntry, HostState, kv_max_total_bytes, max_cursors, kv_set_verdict, account, bytes_at,
  entry_bytes, footprint, is_expired, kv_get, kv_set, kv_del, expiry,
}
use openrusty.Store.Scan.{is_live}
use openrusty.Prelude.Maps.{Unique, insert-Unique, remove-Unique, remove_absent}

-- The total is what the entries amount to and within the quota, no key and no cursor stands twice,
-- and the cursors are within their cap.
pub record IsValid (s : HostState) : Type 0 where
  pub keys : Unique s.kv
  pub counted : s.total_bytes ≡ footprint s.kv
  pub quota : footprint s.kv ≤ kv_max_total_bytes
  pub ids : Unique s.cursors
  pub capped : length s.cursors ≤ max_cursors

pub footprint-insert :
    (k : Bytes) (e : KvEntry) (m : List (Bytes × KvEntry))
    → footprint (insert k e m) + bytes_at k (get k m) ≡ footprint m + entry_bytes k e
unfolding get insert
footprint-insert k e [] = omega arith
footprint-insert k e ((j, f) ∷ m) = elim (Bool-cases (list_beq j k)) [
  | inl same ↦ ground (arith, ap (λ x. length x) ((list_beq_iff j k).0 same))
  | inr other ↦ ground (arith, footprint-insert k e m)
]

footprint-remove :
    (k : Bytes) (m : List (Bytes × KvEntry))
    → Unique m
    → footprint (remove k m) + bytes_at k (get k m) ≡ footprint m
unfolding get remove
footprint-remove k [] u = refl
footprint-remove k ((j, f) ∷ m) u = elim (Bool-cases (list_beq j k)) [
  | inl same ↦
      let at_j : j ≡ k = (list_beq_iff j k).0 same in
      ground (arith, ap (λ x. length x) at_j, remove_absent k m (rw at_j at u.0))
  | inr other ↦ ground (arith, footprint-remove k m u.1)
]

pub footprint-sweep :
    (now : ℕ) (m : List (Bytes × KvEntry))
    → footprint (select (is_live now) m) + footprint (select (λ e. is_expired e.1.expires_at now) m)
      ≡ footprint m
footprint-sweep now [] = refl
footprint-sweep now ((k, e) ∷ m) = ground (arith, footprint-sweep now m)

-- The account is exact as long as the total fits and covers what is removed.
pub account_lem :
    (total added removed : ℕ)
    → removed ≤ total
    → total < 2 ^ 63
    → added < 2 ^ 63
    → account total added removed + removed ≡ total + added
unfolding account
account_lem total added removed covered fits small = ground arith

pub held_le : (k : Bytes) (m : List (Bytes × KvEntry)) → bytes_at k (get k m) ≤ footprint m
unfolding get
held_le k [] = omega arith
held_le k ((j, f) ∷ m) = elim (Bool-cases (list_beq j k)) [
  | inl same ↦ ground (arith, ap (λ x. length x) ((list_beq_iff j k).0 same))
  | inr other ↦ ground (arith, held_le k m)
]

drop-IsValid :
    (s : HostState) (k : Bytes) (e : KvEntry)
    → get k s.kv ≡ some e
    → IsValid s
    → IsValid
        (record s { kv = remove k s.kv; total_bytes = account s.total_bytes 0 (entry_bytes k e) })
drop-IsValid s k e found v =
    let held : bytes_at k (get k s.kv) ≡ entry_bytes k e = ap (bytes_at k) found in
    let gone = footprint-remove k s.kv v.keys in
    let exact =
      account_lem s.total_bytes 0 (entry_bytes k e) (omega (arith, held_le k s.kv, held, v.counted))
        (omega (arith, v.counted, v.quota)) (omega arith) in
    record {
      keys = remove-Unique k s.kv v.keys;
      counted = omega (arith, exact, gone, held, v.counted);
      quota = omega (arith, gone, v.quota);
      ids = v.ids;
      capped = v.capped;
    }

pub kv_get-IsValid : (s : HostState) (k : Bytes) (now : ℕ) → IsValid s → IsValid (kv_get s k now).0
unfolding kv_get
kv_get-IsValid s k now v = elim (Option-cases (get k s.kv)) [
  | inl absent ↦ rw (kv_get, absent) v
  | inr (e, found) ↦ elim (Bool-cases (is_expired e.expires_at now)) [
    | inl gone ↦ rw (kv_get, found, gone) (drop-IsValid s k e found v)
    | inr live ↦ rw (kv_get, found, live) v
  ]
]

pub kv_del-IsValid : (s : HostState) (k : Bytes) → IsValid s → IsValid (kv_del s k).0
unfolding kv_del
kv_del-IsValid s k v = elim (Option-cases (get k s.kv)) [
  | inl absent ↦ rw (kv_del, absent) v
  | inr (e, found) ↦ rw (kv_del, found) (drop-IsValid s k e found v)
]

pub kv_set-IsValid :
    (s : HostState) (k val : Bytes) (ttl : ℤ) (now : ℕ)
    → IsValid s
    → IsValid (kv_set s k val ttl now).0
unfolding kv_set
kv_set-IsValid s k val ttl now v =
    let held = bytes_at k (get k s.kv) in
    elim (Bool-cases (kv_set_verdict (length k) (length val) (s.total_bytes - held))) [
      | inr refused ↦ rw refused v
      | inl admitted ↦
          let fits : (s.total_bytes - held) + (length k + length val) ≤ kv_max_total_bytes =
            ground arith in
          let entry : KvEntry = record { value = val; expires_at = expiry ttl now } in
          let grown = footprint-insert k entry s.kv in
          let covered = held_le k s.kv in
          let exact =
            account_lem s.total_bytes (length k + length val) held
              (omega (arith, covered, v.counted)) (omega (arith, v.counted, v.quota))
              (omega (arith, fits)) in
          rw admitted (record {
            keys = insert-Unique k entry s.kv v.keys;
            counted = omega (arith, exact, grown, v.counted);
            quota = omega (arith, grown, fits, covered, v.counted);
            ids = v.ids;
            capped = v.capped;
          })
    ]
