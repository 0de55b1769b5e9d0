-- ===== src/Balancer/LeastConn.antt =====
-- The least-connections pick of crates/openrusty-proxy/src/balancer.rs: `least_conn_pick`.
use native.Mathlib.Nat.{mul-le-mul_left, le_of_mul-le-mul_left}
use openrusty.Prelude.{
  ℕ, zero, suc, ◌*◌, ◌≤◌, ◌<◌, ◌≡◌, refl, true, inl, inr, some, ltb, arith, List, [], ◌∷◌, All,
  length, get_elem?, get_or, Bool-cases, contains, nat_eq, ==_iff,
}
use openrusty.Balancer.{least_loop, least_conn_pick}

-- The load of peer `i` is at most that of peer `j`: in-flight requests per unit of weight, compared
-- by cross products.
abbrev pub LoadLe : List ℕ → List ℕ → ℕ → ℕ → Type 0
LoadLe in_flight weights i j =
    get_or in_flight i 0 * get_or weights j 0 ≤ get_or in_flight j 0 * get_or weights i 0

-- The index is in range of both arrays, and its peer has a positive weight.
abbrev pub IsPeer : List ℕ → List ℕ → ℕ → Type 0
IsPeer in_flight weights i =
    (i < length in_flight) × (i < length weights) × (0 < get_or weights i 0)

get_or_of_lt : (xs : List ℕ) (i : ℕ) → i < length xs → get_elem? xs i ≡ some (get_or xs i 0)
get_or_of_lt [] i h = elim h [ ]
get_or_of_lt (x ∷ xs) zero h = refl
get_or_of_lt (x ∷ xs) (suc i) h = get_or_of_lt xs i (omega arith)

-- a/u ≤ b/v and b/v ≤ c/w give a/u ≤ c/w.
ratio_trans : (a b c u v w : ℕ) → 0 < v → a * v ≤ b * u → b * w ≤ c * v → a * w ≤ c * u
ratio_trans a b c u v w some_v h k =
    le_of_mul-le-mul_left {m = a * w} {n = c * u} {k = v}
      (omega (
        arith,
        mul-le-mul_left {m = a * v} {n = b * u} w h,
        mul-le-mul_left {m = b * w} {n = c * v} u k,
      ))
      some_v

module _ (in_flight weights : List ℕ) where
  abbrev AllPeers : List ℕ → Type 0
  AllPeers = All (IsPeer in_flight weights)

  All-trans :
      (i b : ℕ) (xs : List ℕ)
      → IsPeer in_flight weights b
      → LoadLe in_flight weights i b
      → All (LoadLe in_flight weights b) xs
      → All (LoadLe in_flight weights i) xs
  All-trans i b [] p le h = tt
  All-trans i b (x ∷ xs) p le h = (ratio_trans _ _ _ _ _ _ p.2 le h.0, All-trans i b xs p le h.1)

  least_loop_lem :
      (best : ℕ) (xs : List ℕ)
      → IsPeer in_flight weights best
      → AllPeers xs
      → (r : ℕ) × (least_loop in_flight weights best xs ≡ some r)
        × IsPeer in_flight weights r
        × LoadLe in_flight weights r best
        × All (LoadLe in_flight weights r) xs
        × (contains (best ∷ xs) r ≡ true)
  unfolding least_loop
  least_loop_lem best [] p all = (best, refl, p, omega arith, tt, ground (arith, ==_iff best best))
  least_loop_lem best (i ∷ xs) p all =
      elim (Bool-cases (
        ltb (get_or in_flight i 0 * get_or weights best 0)
          (get_or in_flight best 0 * get_or weights i 0))) [
            | inl less ↦
                let (r, run, pr, le, rest, mem) = least_loop_lem i xs all.0 all.1 in
                (
                  r,
                  rw
                      (
                        get_or_of_lt in_flight i all.0.0,
                        get_or_of_lt weights best p.1,
                        get_or_of_lt in_flight best p.0,
                        get_or_of_lt weights i all.0.1,
                        less,
                      )
                      run,
                  pr,
                  ratio_trans _ _ _ _ _ _ all.0.2 le (ground arith),
                  (le, rest),
                  ground arith,
                )
            | inr kept ↦
                let (r, run, pr, le, rest, mem) = least_loop_lem best xs p all.1 in
                (
                  r,
                  rw
                      (
                        get_or_of_lt in_flight i all.0.0,
                        get_or_of_lt weights best p.1,
                        get_or_of_lt in_flight best p.0,
                        get_or_of_lt weights i all.0.1,
                        kept,
                      )
                      run,
                  pr,
                  le,
                  (ratio_trans _ _ _ _ _ _ p.2 le (ground arith), rest),
                  ground arith,
                )
          ]

  -- Over one or more candidates that are in range and have positive weights the pick does not panic,
  -- and it is one of the candidates, whose load per unit of weight is at most that of each.
  pub least_conn_pick_least :
      (first : ℕ) (rest : List ℕ)
      → AllPeers (first ∷ rest)
      → (r : ℕ) × (least_conn_pick in_flight weights (first ∷ rest) ≡ some (some r))
        × (contains (first ∷ rest) r ≡ true)
        × All (LoadLe in_flight weights r) (first ∷ rest)
  unfolding least_conn_pick
  least_conn_pick_least first rest all =
      let (r, run, pr, le, below, mem) = least_loop_lem first rest all.0 all.1 in
      (r, rw run, mem, (le, below))
