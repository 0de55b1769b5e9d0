-- ===== src/Balancer/Swrr/Cycle.antt =====
-- A whole cycle of `swrr_next` in crates/openrusty-proxy/src/balancer.rs: the weights and the counts
-- after as many rounds as the weights add up to.
use native.Mathlib.Nat.{mul-le-mul_left, eq_of_mul-eq-mul_left}
use native.Mathlib.Decide.{dec_le}
use openrusty.Prelude.{
  ℕ, suc, ◌+◌, ◌*◌, ◌≤◌, ◌<◌, ◌≡◌, refl, ap₂, arith, List, [], ◌∷◌, All, length,
}
use openrusty.Prelude.Int.{ℤ, pos, negsuc, pos_part, neg_part}
use openrusty.Balancer.Swrr.Weights.{psum, nsum, Balanced, Above}

abbrev pub zeros_ℤ : List ℕ → List ℤ
zeros_ℤ [] = []
zeros_ℤ (w ∷ ws) = pos 0 ∷ zeros_ℤ ws

abbrev pub zeros : List ℕ → List ℕ
zeros [] = []
zeros (w ∷ ws) = 0 ∷ zeros ws

-- After a whole cycle no weight is negative.
whole_one : (t w n : ℕ) (c : ℤ) → pos_part c + t * n ≡ t * w + neg_part c → neg_part c < t → n ≤ w
whole_one t w n c e low = elim (dec_le n w) [
  | yes h ↦ h
  | no h ↦
      let over : suc w ≤ n = omega arith in
      absurd (omega (arith, mul-le-mul_left {m = suc w} {n = n} t over))
]

whole_nonneg :
    (t w n : ℕ) (c : ℤ) → pos_part c + t * n ≡ t * w + neg_part c → neg_part c < t → neg_part c ≡ 0
whole_nonneg t w n (pos c) e low = refl
whole_nonneg t w n (negsuc c) e low =
    absurd (omega (arith, mul-le-mul_left {m = n} {n = w} t (whole_one t w n (negsuc c) e low)))

pub whole_nsum :
    (t : ℕ) (ws : List ℕ) (cs : List ℤ) (ns : List ℕ)
    → Balanced t t ws cs ns
    → Above t cs
    → nsum cs ≡ 0
whole_nsum t [] [] [] bal low = refl
whole_nsum t (w ∷ ws) (c ∷ cs) (n ∷ ns) bal low =
    omega (arith, whole_nonneg t w n c bal.0 low.0, whole_nsum t ws cs ns bal.1 low.1)
whole_nsum t (w ∷ ws) [] ns h low = elim h [ ]
whole_nsum t (w ∷ ws) (c ∷ cs) [] h low = elim h [ ]
whole_nsum t [] (c ∷ cs) ns h low = elim h [ ]
whole_nsum t [] [] (n ∷ ns) h low = elim h [ ]

settled_one : (c : ℤ) → pos_part c ≡ 0 → neg_part c ≡ 0 → c ≡ pos 0
settled_one c p n = ground arith

pub settled :
    (t : ℕ) (ws : List ℕ) (cs : List ℤ) (ns : List ℕ)
    → 0 < t
    → Balanced t t ws cs ns
    → psum cs ≡ 0
    → nsum cs ≡ 0
    → (cs ≡ zeros_ℤ ws) × (ns ≡ ws)
settled t [] [] [] some_t bal p n = (refl, refl)
settled t (w ∷ ws) (c ∷ cs) (k ∷ ns) some_t bal p n =
    let rest = settled t ws cs ns some_t bal.1 (omega arith) (omega arith) in
    (
      ap₂ ◌∷◌ (settled_one c (omega arith) (omega arith)) rest.0,
      ap₂ ◌∷◌ (eq_of_mul-eq-mul_left t some_t k w (omega arith)) rest.1,
    )
settled t (w ∷ ws) [] ns some_t h p n = elim h [ ]
settled t (w ∷ ws) (c ∷ cs) [] some_t h p n = elim h [ ]
settled t [] (c ∷ cs) ns some_t h p n = elim h [ ]
settled t [] [] (n ∷ ns) some_t h p q = elim h [ ]

pub nsum-le : (t : ℕ) (cs : List ℤ) → Above t cs → nsum cs ≤ length cs * t
nsum-le t [] low = omega arith
nsum-le t (c ∷ cs) low = omega (arith, nsum-le t cs low.1)

pub within :
    (t s : ℕ) (cs : List ℤ)
    → Above t cs
    → psum cs ≤ s
    → All (λ c. (neg_part c < t) × (pos_part c ≤ s)) cs
within t s [] low h = tt
within t s (c ∷ cs) low h = ((low.0, omega arith), within t s cs low.1 (omega arith))
