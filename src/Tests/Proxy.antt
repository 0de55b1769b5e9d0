-- ===== src/Tests/Proxy.antt =====
-- crates/openrusty-proxy/src/balancer.rs at concrete inputs.
use openrusty.Prelude.{
  ℕ, ◌+◌, ◌*◌, ◌%◌, ◌^◌, ◌<◌, ◌≤◌, ◌≡◌, refl, Bool, true, false, Option, none, some, List, [], ◌∷◌,
  arith, length, All, contains, nat_eq, get_elem?,
}
use openrusty.Prelude.Int.{ℤ, pos_part, neg_part}
use openrusty.Balancer.{fnv1a64, total, swrr_next, least_conn_pick}
use openrusty.Balancer.Swrr.{rounds, tally, swrr_exact_cycle, swrr_bounds}
use openrusty.Balancer.Swrr.Cycle.{zeros_ℤ, zeros}
use openrusty.Balancer.LeastConn.{LoadLe, least_conn_pick_least}

abbrev weights : List ℕ
weights = 5 ∷ 1 ∷ 1 ∷ []

swrr_exact_cycle_example :
    (picks : List ℕ) × (rounds (total weights) weights (zeros_ℤ weights)
      ≡ some (picks, zeros_ℤ weights))
    × (tally picks (zeros weights) ≡ weights)
unfolding total
swrr_exact_cycle_example = swrr_exact_cycle weights (omega arith)

swrr_bounds_example :
    (picks : List ℕ) × (out : List ℤ) × (rounds 3 weights (zeros_ℤ weights) ≡ some (picks, out))
    × All (λ c. (neg_part c < total weights) × (pos_part c ≤ length weights * total weights)) out
unfolding total
swrr_bounds_example = swrr_bounds 3 weights (omega arith)

-- The sequence of the smoothness test of the source.
swrr_is_smooth :
    rounds 7 weights (zeros_ℤ weights) ≡ some (0 ∷ 0 ∷ 1 ∷ 0 ∷ 2 ∷ 0 ∷ 0 ∷ [], zeros_ℤ weights)
unfolding rounds swrr_next openrusty.Prelude.Int.◌+ℤ◌ openrusty.Prelude.Int.◌-ℤ◌
swrr_is_smooth = refl

least_conn_pick_least_example :
    (r : ℕ) × (least_conn_pick (3 ∷ 1 ∷ []) (2 ∷ 1 ∷ []) (0 ∷ 1 ∷ []) ≡ some (some r))
    × (contains (0 ∷ 1 ∷ []) r ≡ true)
    × All (LoadLe (3 ∷ 1 ∷ []) (2 ∷ 1 ∷ []) r) (0 ∷ 1 ∷ [])
least_conn_pick_least_example =
    least_conn_pick_least (3 ∷ 1 ∷ []) (2 ∷ 1 ∷ []) 0 (1 ∷ [])
      ((omega arith, omega arith, omega arith), ((omega arith, omega arith, omega arith), tt))

abbrev client : List ℕ
client = 49 ∷ 50 ∷ []

abbrev healthy : List ℕ
healthy = 4 ∷ 7 ∷ []

-- The published vectors of the hash.
fnv_empty : fnv1a64 [] ≡ 14695981039346656037
unfolding fnv1a64
fnv_empty = refl

fnv_foobar : fnv1a64 (102 ∷ 111 ∷ 111 ∷ 98 ∷ 97 ∷ 114 ∷ []) ≡ 9625390261332436968
unfolding fnv1a64
fnv_foobar = refl
