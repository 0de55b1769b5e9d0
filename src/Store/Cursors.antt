-- ===== src/Store/Cursors.antt =====
-- A scan through a cursor of crates/openrusty-wasm/src/host_state.rs, from its begin to its end.
use openrusty.Prelude.{
  ℕ, suc, ◌+◌, ◌≤◌, ◌<◌, ◌≡◌, ◌==◌, false, All, refl, sym, ap, ◌∙◌, inl, inr, none, some, List, [],
  ◌∷◌, leb, if◌then◌else◌, arith, length, drop, Bool-cases, Option-cases, nat_eq, get_elem?,
  length-le_of_none, drop_step, drop_end,
}
use openrusty.Prelude.Int.{pos}
use openrusty.Prelude.Assoc.{get, remove, get-insert, get-remove, beq_self}
use openrusty.Store.{Bytes, ScanCursor, HostState, kv_get, kv_set, kv_del, record_error}
use openrusty.Store.Steps.{Op, run, run_all}
use openrusty.Store.Scan.{
  maintain, kv_scan, scan_begin, scan_next, scan_peek, scan_advance, scan_end, bump,
}

-- Consuming the next entry is a look at it followed by an advance, on every cursor.
pub scan_next_lem :
    (s : HostState) (cursor : ℕ) → scan_next s cursor ≡ (scan_advance s cursor, scan_peek s cursor)
unfolding scan_next scan_advance scan_peek
scan_next_lem s cursor = elim (Option-cases (get cursor s.cursors)) [
  | inl absent ↦ ground arith
  | inr (c, found) ↦ ground (arith, length-le_of_none c.entries c.at)
]

-- The cursor is gone.
abbrev pub IsClosed : HostState → ℕ → Type 0
IsClosed s cursor = get cursor s.cursors ≡ none

-- An operation on the entries, on the errors, or on another cursor.
abbrev pub IsElsewhere : ℕ → Op → Type 0
IsElsewhere cursor (Op.get_at key now) = Unit {0}
IsElsewhere cursor (Op.set_at key val ttl now) = Unit {0}
IsElsewhere cursor (Op.delete key) = Unit {0}
IsElsewhere cursor (Op.begin_scan prefix now_sweep now_scan now_made) = ⊥
IsElsewhere cursor (Op.next other) = other == cursor ≡ false
IsElsewhere cursor (Op.advance other) = other == cursor ≡ false
IsElsewhere cursor (Op.end_scan other) = other == cursor ≡ false
IsElsewhere cursor (Op.sweep_at now) = ⊥
IsElsewhere cursor (Op.count_error kind) = Unit {0}

-- The items of calls of `scan_next` with other operations before each of them, until one gives nothing,
-- and the state after them.
pub scan_loop : List (List Op) → HostState → ℕ → HostState × List (Bytes × Bytes)
scan_loop [] s cursor = (s, [])
scan_loop (ops ∷ between) s cursor =
    let step = scan_next (run_all ops s) cursor in
    let rest = scan_loop between step.0 cursor in
    elim step.1 [ none ↦ (step.0, []) | some item ↦ (rest.0, item ∷ rest.1) ]

get-run_next :
    (s : HostState) (other cursor : ℕ)
    → other == cursor ≡ false
    → get cursor (scan_next s other).0.cursors ≡ get cursor s.cursors
unfolding scan_next
get-run_next s other cursor h = elim (Option-cases (get other s.cursors)) [
  | inl absent ↦ ground arith
  | inr (c, found) ↦ ground (
    arith,
    get-remove other cursor s.cursors,
    get-insert other cursor (record c { at = c.at + 1 }) s.cursors,
  )
]

get-run_advance :
    (s : HostState) (other cursor : ℕ)
    → other == cursor ≡ false
    → get cursor (scan_advance s other).cursors ≡ get cursor s.cursors
get-run_advance s other cursor h =
    ap (λ p. get cursor p.0.cursors) (sym (scan_next_lem s other)) ∙ get-run_next s other cursor h

-- It leaves the cursor as it is.
get-run :
    (op : Op) (s : HostState) (cursor : ℕ)
    → IsElsewhere cursor op
    → get cursor (run op s).cursors ≡ get cursor s.cursors
unfolding run kv_get kv_set kv_del scan_end record_error
get-run (Op.get_at key now) s cursor h = ground arith
get-run (Op.set_at key val ttl now) s cursor h = ground arith
get-run (Op.delete key) s cursor h = ground arith
get-run (Op.begin_scan prefix now_sweep now_scan now_made) s cursor h = absurd h
get-run (Op.next other) s cursor h = get-run_next s other cursor h
get-run (Op.advance other) s cursor h = get-run_advance s other cursor h
get-run (Op.end_scan other) s cursor h = ground (arith, get-remove other cursor s.cursors)
get-run (Op.sweep_at now) s cursor h = absurd h
get-run (Op.count_error kind) s cursor h = refl

get-run_all :
    (ops : List Op) (s : HostState) (cursor : ℕ)
    → All (IsElsewhere cursor) ops
    → get cursor (run_all ops s).cursors ≡ get cursor s.cursors
unfolding run_all
get-run_all [] s cursor h = refl
get-run_all (op ∷ ops) s cursor h = get-run_all ops (run op s) cursor h.1 ∙ get-run op s cursor h.0

get_cursor-bump :
    (s : HostState) (cursor : ℕ) (c : ScanCursor)
    → get cursor (bump s cursor c).cursors
      ≡ (if leb (length c.entries) (c.at + 1) then none else some (record c { at = c.at + 1 }))
get_cursor-bump s cursor c = ground (
  arith,
  get-insert cursor cursor (record c { at = c.at + 1 }) s.cursors,
  get-remove cursor cursor s.cursors,
  beq_self cursor,
)

scan_next-closed : (s : HostState) (cursor : ℕ) → IsClosed s cursor → scan_next s cursor ≡ (s, none)
unfolding scan_next
scan_next-closed s cursor h = ground arith

scan_next-ended :
    (s : HostState) (cursor : ℕ) (c : ScanCursor)
    → get cursor s.cursors ≡ some c
    → get_elem? c.entries c.at ≡ none
    → scan_next s cursor ≡ (record s { cursors = remove cursor s.cursors }, none)
unfolding scan_next
scan_next-ended s cursor c found ended = ground arith

scan_next-item :
    (s : HostState) (cursor : ℕ) (c : ScanCursor) (item : Bytes × Bytes)
    → get cursor s.cursors ≡ some c
    → get_elem? c.entries c.at ≡ some item
    → scan_next s cursor ≡ (bump s cursor c, some item)
unfolding scan_next
scan_next-item s cursor c item found there = ground arith

-- A scan through a closed cursor gives nothing.
scan_loop-IsClosed :
    (between : List (List Op)) (s : HostState) (cursor : ℕ)
    → All (All (IsElsewhere cursor)) between
    → IsClosed s cursor
    → ((scan_loop between s cursor).1 ≡ []) × IsClosed (scan_loop between s cursor).0 cursor
unfolding scan_loop
scan_loop-IsClosed [] s cursor apart h = (refl, h)
scan_loop-IsClosed (ops ∷ between) s cursor apart h =
    let closed : IsClosed (run_all ops s) cursor = get-run_all ops s cursor apart.0 ∙ h in
    ground (arith, scan_next-closed (run_all ops s) cursor closed)

-- A live cursor gives what is left of its snapshot, and is closed then.
scan_loop_rest :
    (between : List (List Op)) (s : HostState) (cursor : ℕ) (c : ScanCursor)
    → All (All (IsElsewhere cursor)) between
    → get cursor s.cursors ≡ some c
    → c.at ≤ length c.entries
    → length c.entries < c.at + length between
    → ((scan_loop between s cursor).1 ≡ drop c.at c.entries)
      × IsClosed (scan_loop between s cursor).0 cursor
unfolding scan_loop
scan_loop_rest [] s cursor c apart found reached enough = absurd (omega arith)
scan_loop_rest (ops ∷ between) s cursor c apart found reached enough =
    let t = run_all ops s in
    let live : get cursor t.cursors ≡ some c = get-run_all ops s cursor apart.0 ∙ found in
    elim (Option-cases (get_elem? c.entries c.at)) [
      | inl ended ↦ ground (
        arith,
        scan_next-ended t cursor c live ended,
        drop_end c.entries c.at (length-le_of_none c.entries c.at ended),
        get-remove cursor cursor t.cursors,
        beq_self cursor,
      )
      | inr (item, there) ↦
          let taken = scan_next-item t cursor c item live there in
          let bumped = get_cursor-bump t cursor c in
          let split = drop_step c.entries c.at there in
          elim (Bool-cases (leb (length c.entries) (c.at + 1))) [
            | inl last ↦
                let closed : IsClosed (bump t cursor c) cursor =
                  bumped ∙ ap (λ b. if b then none else some (record c { at = c.at + 1 })) last in
                ground (
                  arith,
                  taken,
                  split,
                  drop_end c.entries (suc c.at) (ground arith),
                  scan_loop-IsClosed between (bump t cursor c) cursor apart.1 closed,
                )
            | inr more ↦
                let moved : get cursor (bump t cursor c).cursors
                    ≡ some (record c { at = suc c.at }) =
                  ground (arith, bumped) in
                let rest =
                  scan_loop_rest between (bump t cursor c) cursor (record c { at = suc c.at })
                    apart.1 moved (ground arith) (omega arith) in
                ground (arith, taken, split, rest)
          ]
    ]

-- An accepted scan gives, call by call, the snapshot that it took, whatever is read, written and deleted
-- between the calls, errors counted and other cursors used, and its cursor is closed when the snapshot is
-- used up. No scan is begun and no sweep is run meanwhile.
pub scan_loop-scan_begin :
    (s : HostState) (prefix : Bytes) (now_sweep now_scan now_made cursor : ℕ)
    (between : List (List Op))
    → (scan_begin s prefix now_sweep now_scan now_made).1 ≡ pos cursor
    → All (All (IsElsewhere cursor)) between
    → length (kv_scan (maintain s now_sweep) prefix now_scan) < length between
    → ((scan_loop between (scan_begin s prefix now_sweep now_scan now_made).0 cursor).1
        ≡ kv_scan (maintain s now_sweep) prefix now_scan)
      × IsClosed
          (scan_loop between (scan_begin s prefix now_sweep now_scan now_made).0 cursor).0
          cursor
unfolding scan_begin
scan_loop-scan_begin s prefix now_sweep now_scan now_made cursor between accepted apart enough =
    let t = maintain s now_sweep in
    let made : ScanCursor = record {
      entries = kv_scan t prefix now_scan;
      at = 0;
      created_at = now_made;
    } in
    let live : get cursor (scan_begin s prefix now_sweep now_scan now_made).0.cursors ≡ some made =
      ground
        (arith, get-insert t.next_cursor t.next_cursor made t.cursors, beq_self t.next_cursor) in
    scan_loop_rest between (scan_begin s prefix now_sweep now_scan now_made).0 cursor made apart
      live (omega arith) (omega arith)
