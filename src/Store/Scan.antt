-- ===== src/Store/Scan.antt =====
-- crates/openrusty-wasm/src/host_state.rs: the snapshot scans over the store, their cursors, and the
-- sweep that drops what has expired.
use openrusty.Prelude.{
  ℕ, ◌+◌, ◌-◌, ◌%◌, ◌^◌, Bool, true, false, not, ◌&&◌, Option, none, some, List, [], ◌∷◌, map, ltb,
  leb, ◌==◌, if◌then◌else◌, length, get_elem?, select, list_eq, nat_eq, string_eq, u32_mod,
}
use openrusty.Prelude.Text.{starts_with}
use openrusty.Prelude.Int.{ℤ, pos, negsuc}
use openrusty.Prelude.Assoc.{get, insert, remove}
use openrusty.Store.{
  Bytes, KvEntry, ScanCursor, HostState, account, footprint, is_expired, max_cursors, sweep_every,
  cursor_ttl_ms,
}

-- The order of byte strings.
unfoldable pub bytes_le : Bytes → Bytes → Bool
bytes_le [] ys = true
bytes_le (x ∷ xs) [] = false
bytes_le (x ∷ xs) (y ∷ ys) = if x == y then bytes_le xs ys else ltb x y

-- `sort_by` the key, as an insertion sort; both are stable.
unfoldable pub insert_by_key : Bytes × Bytes → List (Bytes × Bytes) → List (Bytes × Bytes)
unfolding bytes_le
insert_by_key e [] = e ∷ []
insert_by_key e (f ∷ fs) = if bytes_le e.0 f.0 then e ∷ f ∷ fs else f ∷ insert_by_key e fs

unfoldable pub sort_by_key : List (Bytes × Bytes) → List (Bytes × Bytes)
unfolding insert_by_key
sort_by_key [] = []
sort_by_key (e ∷ es) = insert_by_key e (sort_by_key es)

unfoldable pub kv_scan : HostState → Bytes → ℕ → List (Bytes × Bytes)
unfolding sort_by_key starts_with is_expired
kv_scan s prefix now_ms = sort_by_key (
    map (λ e. (e.0, e.1.value))
      (select (λ e. starts_with e.0 prefix && not (is_expired e.1.expires_at now_ms)) s.kv))

abbrev pub is_live : ℕ → Bytes × KvEntry → Bool
is_live now_ms e = not (is_expired e.1.expires_at now_ms)

-- A cursor that is neither consumed nor too old.
abbrev pub is_active : ℕ → ℕ × ScanCursor → Bool
is_active now_ms c = ltb c.1.at (length c.1.entries) && ltb (now_ms - c.1.created_at) cursor_ttl_ms

-- The state and the number of items removed.
unfoldable pub sweep : HostState → ℕ → HostState × ℕ
unfolding is_expired account
sweep s now_ms =
    let stale = select (λ e. is_expired e.1.expires_at now_ms) s.kv in
    let kept = select (is_active now_ms) s.cursors in
    (
      record s {
        kv = select (is_live now_ms) s.kv;
        cursors = kept;
        total_bytes = account s.total_bytes 0 (footprint stale);
      },
      length stale + (length s.cursors - length kept),
    )

-- The sweep that every 256th scan starts with.
unfoldable pub maintain : HostState → ℕ → HostState
unfolding sweep
maintain s now_ms =
    if leb sweep_every s.stale_ops
    then (sweep (record s { stale_ops = 0 }) now_ms).0
    else record s { stale_ops = (s.stale_ops + 1) % u32_mod }

-- The state and the cursor, or -1.
unfoldable pub scan_begin : HostState → Bytes → ℕ → ℕ → ℕ → HostState × ℤ
unfolding maintain kv_scan
scan_begin s prefix now_sweep now_scan now_made =
    let t = maintain s now_sweep in
    let made : ScanCursor = record {
      entries = kv_scan t prefix now_scan;
      at = 0;
      created_at = now_made;
    } in
    let counted : HostState = record t { next_cursor = (t.next_cursor + 1) % u32_mod } in
    if leb max_cursors (length t.cursors)
    then (t, negsuc 0)
    else if ltb t.next_cursor (2 ^ 31)
    then (record counted { cursors = insert t.next_cursor made t.cursors }, pos t.next_cursor)
    else (counted, negsuc 0)

unfoldable pub scan_peek : HostState → ℕ → Option (Bytes × Bytes)
scan_peek s cursor = elim (get cursor s.cursors) [ none ↦ none | some c ↦ get_elem? c.entries c.at ]

-- One step of a cursor, which is removed at its end.
abbrev pub bump : HostState → ℕ → ScanCursor → HostState
bump s cursor c =
    if leb (length c.entries) (c.at + 1)
    then record s { cursors = remove cursor s.cursors }
    else record s { cursors = insert cursor (record c { at = c.at + 1 }) s.cursors }

unfoldable pub scan_advance : HostState → ℕ → HostState
scan_advance s cursor = elim (get cursor s.cursors) [ none ↦ s | some c ↦ bump s cursor c ]

unfoldable pub scan_is_valid : HostState → ℕ → Bool
scan_is_valid s cursor = elim (get cursor s.cursors) [ none ↦ false | some c ↦ true ]

unfoldable pub scan_next : HostState → ℕ → HostState × Option (Bytes × Bytes)
scan_next s cursor = elim (get cursor s.cursors) [
  | none ↦ (s, none)
  | some c ↦ elim (get_elem? c.entries c.at) [
    | none ↦ (record s { cursors = remove cursor s.cursors }, none)
    | some item ↦ (bump s cursor c, some item)
  ]
]

unfoldable pub scan_end : HostState → ℕ → HostState
scan_end s cursor = record s { cursors = remove cursor s.cursors }
