-- ===== src/Balancer/Swrr.antt =====
-- The smooth weighted round-robin of crates/openrusty-proxy/src/balancer.rs: `swrr_next`, over any
-- number of rounds.
pub mod Weights
pub mod Cycle
use native.Mathlib.Nat.{mul-le-mul_left, eq_of_mul-eq-mul_left}
use openrusty.Prelude.{
  ℕ, zero, suc, ◌+◌, ◌-◌, ◌*◌, ◌≤◌, ◌<◌, ◌≡◌, refl, ap, ap₂, ◌∙◌, sym, Bool, true, false, inl, inr,
  Option, none, some, ltb, ◌==◌, if◌then◌else◌, arith, List, [], ◌∷◌, All, length, get_elem?,
  modify, replicate, ◌>>=◌, ==_iff, length-modify,
}
use openrusty.Prelude.Int.{ℤ, pos, negsuc, ◌-ℤ◌, ◌≤ℤ◌, int_laws, pos_part, neg_part, -ℤ_parts}
use native.Mathlib.Decide.{dec_le}
use openrusty.Balancer.{add_weights, total, best_index, swrr_next}
use Cycle.{zeros_ℤ, zeros, whole_nsum, settled, nsum-le, within}
use Weights.{
  psum, nsum, Balanced, Balanced-add, Balanced-pick, length-Balanced, psum-add, length-add,
  psum-modify, Above, Above-add, Above-modify, psum_zero, best_index_lem,
}

-- The state after `k` rounds in which the peers were picked as often as `ns` says.
pub record Round (k : ℕ) (ws : List ℕ) (cs : List ℤ) (ns : List ℕ) : Type 0 where
  pub balanced : Balanced (total ws) k ws cs ns
  pub above : Above (total ws) cs
  pub zero_sum : psum cs ≡ nsum cs

-- The counts of the picks of each peer, from the counts `ns`.
abbrev pub tally : List ℕ → List ℕ → List ℕ
tally [] ns = ns
tally (b ∷ picks) ns = tally picks (modify ns b suc)

-- `k` calls of `swrr_next`: the indices in the order of the calls, and the weights after them.
unfoldable pub rounds : ℕ → List ℕ → List ℤ → Option (List ℕ × List ℤ)
rounds zero ws cs = some ([], cs)
rounds (suc k) ws cs = do
  (cs', b) ← swrr_next ws cs
  (picks, out) ← rounds k ws cs'
  some (b ∷ picks, out)

chosen_low : (t : ℕ) (m : ℤ) → 0 < t → 0 < pos_part m → neg_part (m -ℤ pos t) < t
unfolding ◌-ℤ◌
chosen_low t m some_t up = ground arith

top_positive : (xs : List ℤ) (m : ℤ) → All (λ x. x ≤ℤ m) xs → 0 < psum xs → 0 < pos_part m
top_positive xs m top some_sum = ground (arith, psum_zero xs m top)

swrr_next_lem :
    (ws : List ℕ) (cs : List ℤ)
    → 0 < length ws
    → length ws ≡ length cs
    → swrr_next ws cs
      ≡ some (
        modify (add_weights cs ws) (best_index (add_weights cs ws)) (λ v. v -ℤ pos (total ws)),
        best_index (add_weights cs ws),
      )
unfolding swrr_next
swrr_next_lem [] cs h e = elim h [ ]
swrr_next_lem (w ∷ ws) cs h e = rw ((==_iff _ _).1 e)

total_nil : (ws : List ℕ) → 0 < total ws → 0 < length ws
unfolding total
total_nil [] h = h
total_nil (w ∷ ws) h = omega arith

Round-pick :
    (k : ℕ) (ws : List ℕ) (xs : List ℤ) (ns : List ℕ) (b : ℕ) (m : ℤ)
    → 0 < total ws
    → Balanced (total ws) (suc k) ws xs ns
    → Above (total ws) xs
    → psum xs ≡ nsum xs + total ws
    → All (λ x. x ≤ℤ m) xs
    → get_elem? xs b ≡ some m
    → Round (suc k) ws (modify xs b (λ v. v -ℤ pos (total ws))) (modify ns b suc)
Round-pick k ws xs ns b m some_t bal low sums top at =
    let f = λ (v : ℤ). v -ℤ pos (total ws) in
    let parts = psum-modify xs b f at in
    record {
      balanced = Balanced-pick (total ws) (suc k) ws xs ns b bal;
      above =
          Above-modify (total ws) xs b f at
            (chosen_low (total ws) m some_t (top_positive xs m top (omega arith))) low;
      zero_sum = omega (int_laws, parts.0, parts.1);
    }

-- A round does not panic, and keeps the state balanced.
swrr_next-Round :
    (k : ℕ) (ws : List ℕ) (cs : List ℤ) (ns : List ℕ)
    → 0 < total ws
    → Round k ws cs ns
    → (cs' : List ℤ) × (b : ℕ) × (swrr_next ws cs ≡ some (cs', b))
      × Round (suc k) ws cs' (modify ns b suc)
swrr_next-Round k ws cs ns some_t r =
    let len = length-Balanced (total ws) k ws cs ns r.balanced in
    let xs = add_weights cs ws in
    let some_ws = total_nil ws some_t in
    let (m, top, at) = best_index_lem xs (omega (arith, length-add cs ws)) in
    (
      modify xs (best_index xs) (λ v. v -ℤ pos (total ws)),
      best_index xs,
      swrr_next_lem ws cs some_ws len,
      Round-pick k ws xs ns (best_index xs) m some_t (Balanced-add (total ws) k ws cs ns r.balanced)
          (Above-add (total ws) cs ws r.above) (omega (arith, psum-add cs ws len, r.zero_sum)) top
          at,
    )

rounds-Round :
    (j k : ℕ) (ws : List ℕ) (cs : List ℤ) (ns : List ℕ)
    → 0 < total ws
    → Round k ws cs ns
    → (picks : List ℕ) × (out : List ℤ) × (rounds j ws cs ≡ some (picks, out))
      × Round (j + k) ws out (tally picks ns)
unfolding rounds
rounds-Round zero k ws cs ns some_t r =
    let e : k ≡ 0 + k = omega arith in ([], cs, refl, rw (← e) r)
rounds-Round (suc j) k ws cs ns some_t r =
    let (cs', b, next, r') = swrr_next-Round k ws cs ns some_t r in
    let (picks, out, run, last) = rounds-Round j (suc k) ws cs' (modify ns b suc) some_t r' in
    let e : j + suc k ≡ suc j + k = omega arith in (b ∷ picks, out, rw (next, run), rw (← e) last)

start-Balanced : (t : ℕ) (ws : List ℕ) → Balanced t 0 ws (zeros_ℤ ws) (zeros ws)
start-Balanced t [] = tt
start-Balanced t (w ∷ ws) = (omega arith, start-Balanced t ws)

start-Above : (t : ℕ) (ws : List ℕ) → 0 < t → Above t (zeros_ℤ ws)
start-Above t [] h = tt
start-Above t (w ∷ ws) h = (h, start-Above t ws h)

start_zero : (ws : List ℕ) → psum (zeros_ℤ ws) ≡ nsum (zeros_ℤ ws)
start_zero [] = refl
start_zero (w ∷ ws) = omega (arith, start_zero ws)

start : (ws : List ℕ) → 0 < total ws → Round 0 ws (zeros_ℤ ws) (zeros ws)
start ws some_t = record {
  balanced = start-Balanced (total ws) ws;
  above = start-Above (total ws) ws some_t;
  zero_sum = start_zero ws;
}

-- From all-zero effective weights, as many calls as the weights add up to pick each peer exactly as
-- often as its weight says, and end with all-zero effective weights; no call panics. (Some weight
-- must be positive.)
pub swrr_exact_cycle :
    (ws : List ℕ)
    → 0 < total ws
    → (picks : List ℕ) × (rounds (total ws) ws (zeros_ℤ ws) ≡ some (picks, zeros_ℤ ws))
      × (tally picks (zeros ws) ≡ ws)
swrr_exact_cycle ws some_t =
    let (picks, out, run, last) =
      rounds-Round (total ws) 0 ws (zeros_ℤ ws) (zeros ws) some_t (start ws some_t) in
    let e : total ws + 0 ≡ total ws = omega arith in
    let whole : Round (total ws) ws out (tally picks (zeros ws)) = rw e at last in
    let none_below =
      whole_nsum (total ws) ws out (tally picks (zeros ws)) whole.balanced whole.above in
    let (flat, exact) =
      settled (total ws) ws out (tally picks (zeros ws)) some_t whole.balanced
        (whole.zero_sum ∙ none_below) none_below in
    (picks, run ∙ ap (λ o. some (picks, o)) flat, exact)

-- From all-zero effective weights, after any number of calls, which do not panic, every effective
-- weight is above minus the sum of the weights, and at most that sum times the number of peers.
pub swrr_bounds :
    (j : ℕ) (ws : List ℕ)
    → 0 < total ws
    → (picks : List ℕ) × (out : List ℤ) × (rounds j ws (zeros_ℤ ws) ≡ some (picks, out))
      × All (λ c. (neg_part c < total ws) × (pos_part c ≤ length ws * total ws)) out
swrr_bounds j ws some_t =
    let (picks, out, run, last) =
      rounds-Round j 0 ws (zeros_ℤ ws) (zeros ws) some_t (start ws some_t) in
    let len : length ws ≡ length out = length-Balanced (total ws) (j + 0) ws out _ last.balanced in
    let low = nsum-le (total ws) out last.above in
    (
      picks,
      out,
      run,
      within (total ws) (length ws * total ws) out last.above
          (rw len (omega (arith, last.zero_sum))),
    )
