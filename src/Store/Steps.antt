-- ===== src/Store/Steps.antt =====
-- Every operation of crates/openrusty-wasm/src/host_state.rs keeps the quotas.
use openrusty.Prelude.{
  ℕ, ◌+◌, ◌%◌, ◌^◌, ◌≤◌, ◌≡◌, inl, inr, some, List, [], ◌∷◌, String, ltb, leb, if◌then◌else◌, arith,
  length, select, Bool-cases, Option-cases, list_eq, nat_eq, u32_mod, get_elem?,
}
use openrusty.Prelude.Int.{ℤ}
use openrusty.Prelude.Assoc.{get, insert, remove}
use openrusty.Store.{
  Bytes, ScanCursor, HostState, max_cursors, footprint, is_expired, kv_get, kv_set, kv_del,
  sweep_every, record_error,
}
use openrusty.Store.Scan.{
  is_live, is_active, sweep, maintain, scan_begin, scan_next, scan_advance, scan_end, kv_scan,
}
use openrusty.Prelude.Maps.{
  Unique, insert-Unique, remove-Unique, select-Unique, length-insert, length-insert_there,
  length-remove, length-select,
}
use openrusty.Store.Valid.{
  IsValid, footprint-sweep, account_lem, kv_get-IsValid, kv_set-IsValid, kv_del-IsValid,
}

sweep-IsValid : (s : HostState) (now : ℕ) → IsValid s → IsValid (sweep s now).0
unfolding sweep
sweep-IsValid s now v =
    let stale = footprint (select (λ e. is_expired e.1.expires_at now) s.kv) in
    let split = footprint-sweep now s.kv in
    let exact =
      account_lem s.total_bytes 0 stale (omega (arith, split, v.counted))
        (omega (arith, v.counted, v.quota)) (omega arith) in
    record {
      keys = select-Unique (is_live now) s.kv v.keys;
      counted = omega (arith, exact, split, v.counted);
      quota = omega (arith, split, v.quota);
      ids = select-Unique (is_active now) s.cursors v.ids;
      capped = omega (arith, length-select (is_active now) s.cursors, v.capped);
    }

-- A change of the counters alone.
recount-IsValid :
    (s : HostState) (next stale : ℕ)
    → IsValid s
    → IsValid (record s { next_cursor = next; stale_ops = stale })
recount-IsValid s next stale v = record {
  keys = v.keys;
  counted = v.counted;
  quota = v.quota;
  ids = v.ids;
  capped = v.capped;
}

-- A change of the cursors alone.
recursor-IsValid :
    (s : HostState) (cs : List (ℕ × ScanCursor))
    → IsValid s
    → Unique cs
    → length cs ≤ max_cursors
    → IsValid (record s { cursors = cs })
recursor-IsValid s cs v u cap = record {
  keys = v.keys;
  counted = v.counted;
  quota = v.quota;
  ids = u;
  capped = cap;
}

remove_cursor-IsValid :
    (s : HostState) (c : ℕ) → IsValid s → IsValid (record s { cursors = remove c s.cursors })
remove_cursor-IsValid s c v =
    recursor-IsValid s (remove c s.cursors) v (remove-Unique c s.cursors v.ids)
      (omega (arith, length-remove c s.cursors, v.capped))

maintain-IsValid : (s : HostState) (now : ℕ) → IsValid s → IsValid (maintain s now)
unfolding maintain
maintain-IsValid s now v = elim (Bool-cases (leb sweep_every s.stale_ops)) [
  | inl due ↦
      rw due (sweep-IsValid (record s { stale_ops = 0 }) now (recount-IsValid s s.next_cursor 0 v))
  | inr rest ↦ rw rest (recount-IsValid s s.next_cursor ((s.stale_ops + 1) % u32_mod) v)
]

scan_begin-IsValid :
    (s : HostState) (prefix : Bytes) (now_sweep now_scan now_made : ℕ)
    → IsValid s
    → IsValid (scan_begin s prefix now_sweep now_scan now_made).0
unfolding scan_begin
scan_begin-IsValid s prefix now_sweep now_scan now_made v =
    let t = maintain s now_sweep in
    let w = maintain-IsValid s now_sweep v in
    let made : ScanCursor = record {
      entries = kv_scan t prefix now_scan;
      at = 0;
      created_at = now_made;
    } in
    let counted = recount-IsValid t ((t.next_cursor + 1) % u32_mod) t.stale_ops w in
    elim (Bool-cases (leb max_cursors (length t.cursors))) [
      | inl full ↦ rw (scan_begin, full) w
      | inr room ↦ elim (Bool-cases (ltb t.next_cursor (2 ^ 31))) [
        | inl small ↦
            rw (scan_begin, room, small)
              (recursor-IsValid (record t { next_cursor = (t.next_cursor + 1) % u32_mod })
                (insert t.next_cursor made t.cursors) counted
                (insert-Unique t.next_cursor made t.cursors w.ids)
                (ground (arith, length-insert t.next_cursor made t.cursors)))
        | inr large ↦ rw (scan_begin, room, large) counted
      ]
    ]

bump-IsValid :
    (s : HostState) (id : ℕ) (c : ScanCursor)
    → get id s.cursors ≡ some c
    → IsValid s
    → IsValid (
        if leb (length c.entries) (c.at + 1)
        then record s { cursors = remove id s.cursors }
        else record s { cursors = insert id (record c { at = c.at + 1 }) s.cursors })
bump-IsValid s id c found v = elim (Bool-cases (leb (length c.entries) (c.at + 1))) [
  | inl done ↦ rw done (remove_cursor-IsValid s id v)
  | inr more ↦ rw more (
      recursor-IsValid s (insert id (record c { at = c.at + 1 }) s.cursors) v
        (insert-Unique id (record c { at = c.at + 1 }) s.cursors v.ids)
        (omega
          (arith, length-insert_there id (record c { at = c.at + 1 }) s.cursors found, v.capped)))
]

scan_next-IsValid : (s : HostState) (id : ℕ) → IsValid s → IsValid (scan_next s id).0
unfolding scan_next
scan_next-IsValid s id v = elim (Option-cases (get id s.cursors)) [
  | inl absent ↦ rw (scan_next, absent) v
  | inr (c, found) ↦ elim (Option-cases (get_elem? c.entries c.at)) [
    | inl ended ↦ rw (scan_next, found, ended) (remove_cursor-IsValid s id v)
    | inr (item, there) ↦ rw (scan_next, found, there) (bump-IsValid s id c found v)
  ]
]

scan_advance-IsValid : (s : HostState) (id : ℕ) → IsValid s → IsValid (scan_advance s id)
unfolding scan_advance
scan_advance-IsValid s id v = elim (Option-cases (get id s.cursors)) [
  | inl absent ↦ rw (scan_advance, absent) v
  | inr (c, found) ↦ rw (scan_advance, found) (bump-IsValid s id c found v)
]

-- The operations that change the state, with their arguments and clock readings.
pub data Op : Type 0 where
  get_at : Bytes → ℕ → Op
  set_at : Bytes → Bytes → ℤ → ℕ → Op
  delete : Bytes → Op
  begin_scan : Bytes → ℕ → ℕ → ℕ → Op
  next advance end_scan sweep_at : ℕ → Op
  count_error : String → Op

-- The state after an operation.
unfoldable pub run : Op → HostState → HostState
run (Op.get_at key now) s = (kv_get s key now).0
run (Op.set_at key val ttl now) s = (kv_set s key val ttl now).0
run (Op.delete key) s = (kv_del s key).0
run (Op.begin_scan prefix now_sweep now_scan now_made) s =
    (scan_begin s prefix now_sweep now_scan now_made).0
run (Op.next cursor) s = (scan_next s cursor).0
run (Op.advance cursor) s = scan_advance s cursor
run (Op.end_scan cursor) s = scan_end s cursor
run (Op.sweep_at now) s = (sweep s now).0
run (Op.count_error kind) s = record_error s kind

unfoldable pub run_all : List Op → HostState → HostState
unfolding run
run_all [] s = s
run_all (op ∷ ops) s = run_all ops (run op s)

run-IsValid : (op : Op) (s : HostState) → IsValid s → IsValid (run op s)
unfolding run scan_end record_error
run-IsValid (Op.get_at key now) s v = kv_get-IsValid s key now v
run-IsValid (Op.set_at key val ttl now) s v = kv_set-IsValid s key val ttl now v
run-IsValid (Op.delete key) s v = kv_del-IsValid s key v
run-IsValid (Op.begin_scan prefix now_sweep now_scan now_made) s v =
    scan_begin-IsValid s prefix now_sweep now_scan now_made v
run-IsValid (Op.next cursor) s v = scan_next-IsValid s cursor v
run-IsValid (Op.advance cursor) s v = scan_advance-IsValid s cursor v
run-IsValid (Op.end_scan cursor) s v = remove_cursor-IsValid s cursor v
run-IsValid (Op.sweep_at now) s v = sweep-IsValid s now v
run-IsValid (Op.count_error kind) s v = record {
  keys = v.keys;
  counted = v.counted;
  quota = v.quota;
  ids = v.ids;
  capped = v.capped;
}

-- Any sequence of operations keeps the state of a plugin valid: the account is the sum of the bytes
-- of the keys and values that are held and at most 1 MiB, no key and no cursor stands twice, and at
-- most 64 cursors are live.
pub run_all-IsValid : (ops : List Op) (s : HostState) → IsValid s → IsValid (run_all ops s)
unfolding run_all
run_all-IsValid [] s v = v
run_all-IsValid (op ∷ ops) s v = run_all-IsValid ops (run op s) (run-IsValid op s v)
