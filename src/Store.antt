-- ===== src/Store.antt =====
-- crates/openrusty-wasm/src/host_state.rs: the key-value store, the scan cursors and the error counts
-- of one plugin. Each method is one step on the state; a method that reads the clock is given the
-- reading, `scan_begin` all three of its readings. The maps are association lists. The name of the
-- plugin and the copies that borrow a value are left out.
pub mod Scan
pub mod Snapshot
pub mod Valid
pub mod Steps
pub mod Values
pub mod Cursors
use openrusty.Prelude.{
  ℕ, zero, suc, ◌+◌, ◌-◌, ◌*◌, ◌%◌, ◌^◌, min, Bool, true, false, not, ◌&&◌, Option, none, some,
  List, [], ◌∷◌, map, String, ltb, leb, ◌==◌, if◌then◌else◌, length, get_elem?, select, Eq, list_eq,
  nat_eq, string_eq, u32_mod, u64_mod, u64_max,
}
use openrusty.Prelude.Int.{ℤ, pos, negsuc}
use openrusty.Prelude.Assoc.{get, insert, remove}

abbrev pub Bytes : Type 0
Bytes = List ℕ

-- `u64::MAX` means "never".
unfoldable pub is_expired : ℕ → ℕ → Bool
is_expired expires_at now_ms = not (expires_at == u64_max) && leb expires_at now_ms

pub record KvEntry : Type 0 where
  pub value : Bytes
  pub expires_at : ℕ

pub record ScanCursor : Type 0 where
  pub entries : List (Bytes × Bytes)
  pub at : ℕ
  pub created_at : ℕ

abbrev pub sweep_every : ℕ
sweep_every = 256

abbrev pub cursor_ttl_ms : ℕ
cursor_ttl_ms = 60000

abbrev pub max_cursors : ℕ
max_cursors = 64

abbrev pub kv_max_value_bytes : ℕ
kv_max_value_bytes = 65536

abbrev pub kv_max_total_bytes : ℕ
kv_max_total_bytes = 1048576

unfoldable pub kv_set_verdict : ℕ → ℕ → ℕ → Bool
kv_set_verdict key_len val_len total_bytes =
    leb val_len kv_max_value_bytes
    && leb (min (total_bytes + (key_len + val_len)) u64_max) kv_max_total_bytes

pub record HostState : Type 0 where
  pub kv : List (Bytes × KvEntry)
  pub cursors : List (ℕ × ScanCursor)
  pub next_cursor : ℕ
  pub errors : ℕ
  pub error_kinds : List (String × ℕ)
  pub stale_ops : ℕ
  pub total_bytes : ℕ

abbrev pub new : HostState
new = record {
  kv = [];
  cursors = [];
  next_cursor = 0;
  errors = 0;
  error_kinds = [];
  stale_ops = 0;
  total_bytes = 0;
}

-- `account`: the total after `added` and `removed`; the atomic operations wrap.
unfoldable pub account : ℕ → ℕ → ℕ → ℕ
account total added removed =
    if ltb removed added
    then (total + (added - removed)) % u64_mod
    else if ltb added removed
    then (total + u64_mod - (removed - added)) % u64_mod
    else total

-- The bytes that an entry counts for.
abbrev pub entry_bytes : Bytes → KvEntry → ℕ
entry_bytes key e = length key + length e.value

abbrev pub bytes_at : Bytes → Option KvEntry → ℕ
bytes_at key none = 0
bytes_at key (some e) = entry_bytes key e

-- The removal of a key, with its bytes.
abbrev drop_key : HostState → Bytes → KvEntry → HostState
drop_key s key e = record s {
  kv = remove key s.kv;
  total_bytes = account s.total_bytes 0 (entry_bytes key e);
}

-- `kv_get`: an expired entry is dropped.
unfoldable pub kv_get : HostState → Bytes → ℕ → HostState × Option Bytes
unfolding is_expired account
kv_get s key now_ms = elim (get key s.kv) [
  | none ↦ (s, none)
  | some e ↦ if is_expired e.expires_at now_ms then (drop_key s key e, none) else (s, some e.value)
]

abbrev pub expiry : ℤ → ℕ → ℕ
expiry (pos zero) now_ms = u64_max
expiry (pos (suc n)) now_ms = min (now_ms + suc n) u64_max
expiry (negsuc n) now_ms = u64_max

-- `kv_set`; `false` is a refusal.
unfoldable pub kv_set : HostState → Bytes → Bytes → ℤ → ℕ → HostState × Bool
unfolding kv_set_verdict account
kv_set s key val ttl_ms now_ms =
    let held = bytes_at key (get key s.kv) in
    if kv_set_verdict (length key) (length val) (s.total_bytes - held)
    then (
      record s {
        kv = insert key (record { value = val; expires_at = expiry ttl_ms now_ms }) s.kv;
        total_bytes = account s.total_bytes (length key + length val) held;
      },
      true,
    )
    else (s, false)

unfoldable pub kv_del : HostState → Bytes → HostState × Bool
unfolding account
kv_del s key = elim (get key s.kv) [ none ↦ (s, false) | some e ↦ (drop_key s key e, true) ]

-- The bytes of the entries of a map.
abbrev pub footprint : List (Bytes × KvEntry) → ℕ
footprint [] = 0
footprint ((k, e) ∷ m) = entry_bytes k e + footprint m

unfoldable pub record_error : HostState → String → HostState
record_error s kind =
    let seen : ℕ = elim (get kind s.error_kinds) [ none ↦ 0 | some n ↦ n ] in
    record s {
      errors = (s.errors + 1) % u64_mod;
      error_kinds = insert kind ((seen + 1) % u64_mod) s.error_kinds;
    }
