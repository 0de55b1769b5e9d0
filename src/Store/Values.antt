-- ===== src/Store/Values.antt =====
-- What the key-value operations of crates/openrusty-wasm/src/host_state.rs answer.
use openrusty.Prelude.{
  ℕ, ◌+◌, ◌-◌, ◌≤◌, ◌≡◌, ap, true, false, ◌&&◌, inl, inr, Option, none, some, List, leb,
  if◌then◌else◌, arith, length, Bool-cases, Option-cases, select, ◌∙◌, sym, refl, [], ◌∷◌, list_eq,
  nat_eq, list_beq, list_beq_iff,
}
use openrusty.Prelude.Int.{ℤ}
use openrusty.Prelude.Assoc.{get, insert, get-insert, get-remove}
use openrusty.Store.{
  Bytes, KvEntry, HostState, kv_max_total_bytes, kv_max_value_bytes, kv_set_verdict, account,
  footprint, bytes_at, is_expired, kv_get, kv_set, kv_del, expiry,
}
use openrusty.Prelude.Maps.{Unique}
use openrusty.Store.Scan.{sweep, is_live}
use openrusty.Store.Valid.{IsValid, held_le, footprint-insert, account_lem}

-- The value of a key at a clock reading, if the entry is there and has not expired.
abbrev pub value_at : Option KvEntry → ℕ → Option Bytes
value_at none now = none
value_at (some e) now = if is_expired e.expires_at now then none else some e.value

kv_get_lem : (s : HostState) (k : Bytes) (now : ℕ) → (kv_get s k now).1 ≡ value_at (get k s.kv) now
unfolding kv_get
kv_get_lem s k now = elim (Option-cases (get k s.kv)) [
  | inl absent ↦ ground arith
  | inr (e, found) ↦ ground arith
]

-- The entries after a write of a key.
abbrev pub written : HostState → Bytes → Bytes → ℤ → ℕ → List (Bytes × KvEntry)
written s k val ttl now = insert k (record { value = val; expires_at = expiry ttl now }) s.kv

-- A write to a valid state is accepted exactly if the value is at most 64 KiB and the entries, the new
-- one in place of any old one, are at most 1 MiB; a refused write changes nothing, and an accepted one
-- changes the entries and their account alone.
pub kv_set_lem :
    (s : HostState) (k val : Bytes) (ttl : ℤ) (now : ℕ)
    → IsValid s
    → kv_set s k val ttl now ≡ (
        if leb (length val) kv_max_value_bytes
          && leb (footprint (written s k val ttl now)) kv_max_total_bytes
        then (
          record s {
            kv = written s k val ttl now;
            total_bytes = footprint (written s k val ttl now);
          },
          true,
        )
        else (s, false))
unfolding kv_set kv_set_verdict
kv_set_lem s k val ttl now v =
    let held = bytes_at k (get k s.kv) in
    let grown = footprint-insert k (record { value = val; expires_at = expiry ttl now }) s.kv in
    let covered = held_le k s.kv in
    elim (Bool-cases (kv_set_verdict (length k) (length val) (s.total_bytes - held))) [
      | inr refused ↦ ground arith
      | inl admitted ↦
          let fits : (s.total_bytes - held) + (length k + length val) ≤ kv_max_total_bytes =
            ground arith in
          let exact =
            account_lem s.total_bytes (length k + length val) held
              (omega (arith, covered, v.counted)) (omega (arith, v.counted, v.quota))
              (omega (arith, fits)) in
          let same : account s.total_bytes (length k + length val) held
              ≡ footprint (written s k val ttl now) =
            omega (arith, exact, grown, v.counted) in
          ground (arith, same, v.counted)
    ]

-- After an accepted write a read of the key gives the value until it expires, and a read of any other
-- key gives what it gave before.
pub kv_get-kv_set :
    (s : HostState) (k val : Bytes) (ttl : ℤ) (now : ℕ) (j : Bytes) (later : ℕ)
    → (kv_set s k val ttl now).1 ≡ true
    → (kv_get (kv_set s k val ttl now).0 j later).1 ≡ (
        if list_beq k j
        then (if is_expired (expiry ttl now) later then none else some val)
        else (kv_get s j later).1)
unfolding kv_set
kv_get-kv_set s k val ttl now j later accepted =
    elim (Bool-cases
      (kv_set_verdict (length k) (length val) (s.total_bytes - bytes_at k (get k s.kv)))) [
        | inr refused ↦ absurd (ground arith)
        | inl admitted ↦ ground (
          arith,
          kv_get_lem (kv_set s k val ttl now).0 j later,
          kv_get_lem s j later,
          get-insert k j (record { value = val; expires_at = expiry ttl now }) s.kv,
        )
      ]

-- After a delete the key has no value and any other key has what it had before; the delete says
-- whether there was an entry.
pub kv_get-kv_del :
    (s : HostState) (k j : Bytes) (later : ℕ)
    → ((kv_get (kv_del s k).0 j later).1 ≡ (if list_beq k j then none else (kv_get s j later).1))
      × ((kv_del s k).1 ≡ elim (get k s.kv) [ none ↦ false | some e ↦ true ])
unfolding kv_del
kv_get-kv_del s k j later = elim (Option-cases (get k s.kv)) [
  | inl absent ↦
      let none_at : list_beq k j ≡ true → (kv_get s j later).1 ≡ none = λ h. ground (
        arith,
        kv_get_lem s j later,
        ap (λ x. value_at (get x s.kv) later) ((list_beq_iff k j).0 h),
      ) in
      elim (Bool-cases (list_beq k j)) [
        | inl same ↦ ground (arith, none_at same)
        | inr other ↦ ground arith
      ]
  | inr (e, found) ↦
      ground (arith, kv_get_lem (kv_del s k).0 j later, kv_get_lem s j later, get-remove k j s.kv)
]

get-sweep :
    (now later : ℕ) (j : Bytes) (m : List (Bytes × KvEntry))
    → Unique m
    → now ≤ later
    → value_at (get j (select (is_live now) m)) later ≡ value_at (get j m) later
unfolding get is_expired
get-sweep now later j [] u h = refl
get-sweep now later j ((k, e) ∷ m) u h = elim (Bool-cases (list_beq k j)) [
  | inl same ↦
      let at_j = ap (λ x. get x m) ((list_beq_iff k j).0 same) in
      ground (arith, at_j, get-sweep now later j m u.1 h)
  | inr other ↦ ground (arith, get-sweep now later j m u.1 h)
]

-- A sweep loses nothing that a later reader could see: at every clock reading from that of the sweep
-- on, each key has the value that it had before.
pub kv_get-sweep :
    (s : HostState) (now later : ℕ) (j : Bytes)
    → Unique s.kv
    → now ≤ later
    → (kv_get (sweep s now).0 j later).1 ≡ (kv_get s j later).1
unfolding sweep
kv_get-sweep s now later j u h =
    kv_get_lem (sweep s now).0 j later ∙ get-sweep now later j s.kv u h ∙ sym (kv_get_lem s j later)
