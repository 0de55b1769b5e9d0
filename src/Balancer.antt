-- ===== src/Balancer.antt =====
-- crates/openrusty-proxy/src/balancer.rs: the selection algorithms. An `i64` effective weight is an
-- integer without bound; `Swrr.swrr_bounds` shows how far it strays. An outer `none` is a panic of
-- the source: a failed assertion or an index out of range.
pub mod Swrr
pub mod LeastConn
pub mod IpHash
use Prim.Native.Nat.{bit_xor}
use openrusty.Prelude.{
  ℕ, ◌+◌, ◌*◌, ◌%◌, ◌==◌, Option, none, some, List, [], ◌∷◌, ltb, if◌then◌else◌, length, get_elem?,
  modify, u64_mod, ◌>>=◌,
}
use openrusty.Prelude.Int.{ℤ, pos, ◌+ℤ◌, ◌-ℤ◌, ltb_ℤ}

abbrev pub fnv_offset : ℕ
fnv_offset = 0xcbf29ce484222325

abbrev pub fnv_prime : ℕ
fnv_prime = 0x00000100000001b3

-- The loop over the bytes, from a hash; `wrapping_mul` is the product modulo 2^64.
unfoldable pub fnv_loop : ℕ → List ℕ → ℕ
fnv_loop hash [] = hash
fnv_loop hash (byte ∷ rest) = fnv_loop (bit_xor hash byte * fnv_prime % u64_mod) rest

unfoldable pub fnv1a64 : List ℕ → ℕ
unfolding fnv_loop
fnv1a64 bytes = fnv_loop fnv_offset bytes

-- Each peer's configured weight is added to its effective weight (the `zip` of the two slices).
unfoldable pub add_weights : List ℤ → List ℕ → List ℤ
add_weights (eff ∷ effs) (w ∷ ws) = (eff +ℤ pos w) ∷ add_weights effs ws
add_weights (eff ∷ effs) [] = eff ∷ effs
add_weights [] ws = []

unfoldable pub total : List ℕ → ℕ
total [] = 0
total (w ∷ ws) = w + total ws

-- The scan for the highest effective weight from index `i` on; `best` holds `v`. A tie keeps the
-- lower index.
unfoldable pub scan_best : List ℤ → ℕ → ℕ → ℤ → ℕ
scan_best [] i best v = best
scan_best (x ∷ xs) i best v =
    scan_best xs (i + 1) (if ltb_ℤ v x then i else best) (if ltb_ℤ v x then x else v)

unfoldable pub best_index : List ℤ → ℕ
unfolding scan_best
best_index [] = 0
best_index (x ∷ xs) = scan_best xs 1 0 x

-- The new effective weights and the chosen index.
unfoldable pub swrr_next : List ℕ → List ℤ → Option (List ℤ × ℕ)
unfolding add_weights total best_index
swrr_next [] current = none
swrr_next (w ∷ ws) current =
    if length (w ∷ ws) == length current
    then (let raised = add_weights current (w ∷ ws) in
        let best = best_index raised in
        some (modify raised best (λ v. v -ℤ pos (total (w ∷ ws))), best))
    else none

unfoldable pub ip_hash_pick : List ℕ → List ℕ → Option ℕ
unfolding fnv1a64
ip_hash_pick client_ip [] = none
ip_hash_pick client_ip (i ∷ rest) = get_elem? (i ∷ rest) (fnv1a64 client_ip % length (i ∷ rest))

-- The products are taken in `u128`, where a `usize` times a `u32` cannot overflow.
unfoldable pub least_loop : List ℕ → List ℕ → ℕ → List ℕ → Option ℕ
least_loop in_flight weights best [] = some best
least_loop in_flight weights best (i ∷ rest) = do
  flight_i ← get_elem? in_flight i
  weight_best ← get_elem? weights best
  flight_best ← get_elem? in_flight best
  weight_i ← get_elem? weights i
  least_loop in_flight weights
      (if ltb (flight_i * weight_best) (flight_best * weight_i) then i else best) rest

unfoldable pub least_conn_pick : List ℕ → List ℕ → List ℕ → Option (Option ℕ)
unfolding least_loop
least_conn_pick in_flight weights [] = some none
least_conn_pick in_flight weights (first ∷ rest) = do
  best ← least_loop in_flight weights first rest
  some (some best)
