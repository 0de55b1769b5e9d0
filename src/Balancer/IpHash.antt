-- ===== src/Balancer/IpHash.antt =====
-- The hash pick of crates/openrusty-proxy/src/balancer.rs: `fnv1a64` and `ip_hash_pick`.
use openrusty.Prelude.{
  ℕ, suc, ◌*◌, ◌%◌, ◌^◌, ◌<◌, ◌≡◌, true, some, arith, List, [], ◌∷◌, length, get_elem?,
  get_elem?-some, contains_of_get, contains, nat_eq, u64_mod,
}
use Prim.Native.Nat.{bit_xor}
use native.Mathlib.Nat.{mod-lt}
use openrusty.Balancer.{fnv_prime, fnv_loop, fnv1a64, fnv_offset, ip_hash_pick}

fnv_loop-lt : (h : ℕ) (bytes : List ℕ) → h < 2 ^ 64 → fnv_loop h bytes < 2 ^ 64
unfolding fnv_loop
fnv_loop-lt h [] small = small
fnv_loop-lt h (b ∷ bytes) small =
    fnv_loop-lt (bit_xor h b * fnv_prime % u64_mod) bytes (omega arith)

-- The hash fits in 64 bits, and over one or more candidates the pick is the candidate whose position
-- is the hash modulo their number.
pub ip_hash_pick_member :
    (client_ip : List ℕ) (first : ℕ) (rest : List ℕ)
    → (fnv1a64 client_ip < 2 ^ 64)
      × ((r : ℕ) × (ip_hash_pick client_ip (first ∷ rest) ≡ some r)
          × (contains (first ∷ rest) r ≡ true)
          × (get_elem? (first ∷ rest) (fnv1a64 client_ip % length (first ∷ rest)) ≡ some r))
unfolding ip_hash_pick fnv1a64
ip_hash_pick_member client_ip first rest =
    let at = fnv_loop fnv_offset client_ip % suc (length rest) in
    let (r, e) =
      get_elem?-some (first ∷ rest) at (mod-lt (fnv_loop fnv_offset client_ip) (omega arith)) in
    (fnv_loop-lt fnv_offset client_ip (omega arith), (r, e, contains_of_get (first ∷ rest) at e, e))
