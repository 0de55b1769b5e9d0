-- ===== src/Tests/Store.antt =====
-- The key-value store of a plugin at concrete inputs.
use openrusty.Prelude.{
  ℕ, ◌≡◌, refl, Bool, true, false, Option, none, some, List, [], ◌∷◌, arith, if◌then◌else◌,
  list_beq, contains, pair_eq, list_eq, nat_eq,
}
use openrusty.Prelude.Int.{pos}
use openrusty.Prelude.Text.{codes, starts_with}
use openrusty.Store.{Bytes, HostState, new, kv_get, kv_set, is_expired}
use openrusty.Store.Scan.{kv_scan, maintain, scan_begin}
use openrusty.Store.Valid.{IsValid}
use openrusty.Store.Steps.{Op, run_all, run_all-IsValid}
use openrusty.Store.Values.{kv_set_lem, kv_get-kv_set, written}
use openrusty.Store.Snapshot.{kv_scan_lem, IsSorted}
use openrusty.Store.Cursors.{scan_loop, scan_loop-scan_begin, IsClosed}

empty-IsValid : IsValid new
empty-IsValid = omega arith

abbrev key_a : Bytes
key_a = codes "a:1"

abbrev key_b : Bytes
key_b = codes "a:2"

abbrev calls : List Op
calls = Op.set_at key_b (codes "two") (pos 0) 100 ∷ Op.set_at key_a (codes "one") (pos 500) 100 ∷ []

-- Two keys, the second set first.
abbrev held : HostState
held = run_all calls new

held-IsValid : IsValid held
held-IsValid = run_all-IsValid calls new empty-IsValid

run_all-IsValid_example : IsValid (run_all (Op.sweep_at 700 ∷ []) held)
run_all-IsValid_example = run_all-IsValid (Op.sweep_at 700 ∷ []) held held-IsValid

kv_set_lem_example :
    kv_set held key_b (codes "2") (pos 0) 200
    ≡ (record held { kv = written held key_b (codes "2") (pos 0) 200; total_bytes = 10 }, true)
unfolding run_all openrusty.Prelude.Assoc.insert kv_set openrusty.Prelude.Assoc.get
kv_set_lem_example = kv_set_lem held key_b (codes "2") (pos 0) 200 held-IsValid

kv_get-kv_set_example : (kv_get (kv_set held key_a (codes "1") (pos 500) 200).0 key_a 700).1 ≡ none
unfolding is_expired kv_set run_all openrusty.Prelude.Assoc.insert openrusty.Prelude.Assoc.get
kv_get-kv_set_example = kv_get-kv_set held key_a (codes "1") (pos 500) 200 key_a 700 refl

kv_scan_lem_example :
    IsSorted (kv_scan held (codes "a:") 200)
    × (contains (kv_scan held (codes "a:") 200) (key_a, codes "one") ≡ true)
unfolding run_all kv_set openrusty.Prelude.Assoc.insert openrusty.Prelude.Assoc.get is_expired
    starts_with
kv_scan_lem_example = kv_scan_lem held (codes "a:") 200 key_a (codes "one") held-IsValid.keys

-- A key of the snapshot is overwritten and then deleted, another cursor is used and an error counted.
abbrev meddling : List (List Op)
meddling =
    (Op.set_at key_a (codes "9") (pos 0) 300 ∷ Op.delete key_a ∷ [])
    ∷ (Op.next 7 ∷ Op.count_error "trap" ∷ [])
    ∷ []
    ∷ []

scan_loop-scan_begin_example :
    ((scan_loop meddling (scan_begin held (codes "a:") 200 200 200).0 0).1
      ≡ kv_scan (maintain held 200) (codes "a:") 200)
    × IsClosed (scan_loop meddling (scan_begin held (codes "a:") 200 200 200).0 0).0 0
unfolding scan_begin run_all openrusty.Prelude.Assoc.insert kv_set openrusty.Prelude.Assoc.get
scan_loop-scan_begin_example =
    scan_loop-scan_begin held (codes "a:") 200 200 200 0 meddling refl
      ((tt, (tt, tt)), ((refl, (tt, tt)), (tt, tt))) (omega arith)
