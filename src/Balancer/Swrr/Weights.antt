-- ===== src/Balancer/Swrr/Weights.antt =====
-- The effective weights of `swrr_next` in crates/openrusty-proxy/src/balancer.rs: what a round adds
-- to them and takes from them, and what the scan for the highest one finds.
use openrusty.Prelude.{
  ℕ, zero, suc, ◌+◌, ◌*◌, ◌≤◌, ◌<◌, ◌≡◌, ◌⊎◌, refl, ap, sym, inl, inr, some, arith, List, [], ◌∷◌,
  All, length, get_elem?, modify, Bool-cases,
}
use openrusty.Prelude.Int.{ℤ, pos, ◌+ℤ◌, ◌-ℤ◌, ◌≤ℤ◌, ltb_ℤ, int_laws, pos_part, neg_part}
use openrusty.Balancer.{add_weights, total, scan_best, best_index}

-- The sums of the positive and of the negative parts of the effective weights.
abbrev pub psum : List ℤ → ℕ
psum [] = 0
psum (c ∷ cs) = pos_part c + psum cs

abbrev pub nsum : List ℤ → ℕ
nsum [] = 0
nsum (c ∷ cs) = neg_part c + nsum cs

-- After `k` rounds in which the peers were picked as often as `ns` says, each effective weight is
-- `k` times the weight, less `t` for each pick.
abbrev pub Balanced : ℕ → ℕ → List ℕ → List ℤ → List ℕ → Type 0
Balanced t k [] [] [] = Unit {0}
Balanced t k (w ∷ ws) (c ∷ cs) (n ∷ ns) =
    (pos_part c + t * n ≡ k * w + neg_part c) × Balanced t k ws cs ns
Balanced t k _ _ _ = ⊥

pub Balanced-add :
    (t k : ℕ) (ws : List ℕ) (cs : List ℤ) (ns : List ℕ)
    → Balanced t k ws cs ns
    → Balanced t (suc k) ws (add_weights cs ws) ns
unfolding add_weights
Balanced-add t k [] [] [] h = tt
Balanced-add t k (w ∷ ws) (c ∷ cs) (n ∷ ns) h = (omega int_laws, Balanced-add t k ws cs ns h.1)
Balanced-add t k (w ∷ ws) [] ns h = elim h [ ]
Balanced-add t k (w ∷ ws) (c ∷ cs) [] h = elim h [ ]
Balanced-add t k [] (c ∷ cs) ns h = elim h [ ]
Balanced-add t k [] [] (n ∷ ns) h = elim h [ ]

pub Balanced-pick :
    (t k : ℕ) (ws : List ℕ) (cs : List ℤ) (ns : List ℕ) (b : ℕ)
    → Balanced t k ws cs ns
    → Balanced t k ws (modify cs b (λ v. v -ℤ pos t)) (modify ns b suc)
Balanced-pick t k [] [] [] b h = tt
Balanced-pick t k (w ∷ ws) (c ∷ cs) (n ∷ ns) zero h = (omega int_laws, h.1)
Balanced-pick t k (w ∷ ws) (c ∷ cs) (n ∷ ns) (suc b) h = (h.0, Balanced-pick t k ws cs ns b h.1)
Balanced-pick t k (w ∷ ws) [] ns b h = elim h [ ]
Balanced-pick t k (w ∷ ws) (c ∷ cs) [] b h = elim h [ ]
Balanced-pick t k [] (c ∷ cs) ns b h = elim h [ ]
Balanced-pick t k [] [] (n ∷ ns) b h = elim h [ ]

pub length-Balanced :
    (t k : ℕ) (ws : List ℕ) (cs : List ℤ) (ns : List ℕ)
    → Balanced t k ws cs ns
    → length ws ≡ length cs
length-Balanced t k [] [] [] h = refl
length-Balanced t k (w ∷ ws) (c ∷ cs) (n ∷ ns) h = ap suc (length-Balanced t k ws cs ns h.1)
length-Balanced t k (w ∷ ws) [] ns h = elim h [ ]
length-Balanced t k (w ∷ ws) (c ∷ cs) [] h = elim h [ ]
length-Balanced t k [] (c ∷ cs) ns h = elim h [ ]
length-Balanced t k [] [] (n ∷ ns) h = elim h [ ]

pub psum-add :
    (cs : List ℤ) (ws : List ℕ)
    → length ws ≡ length cs
    → psum (add_weights cs ws) + nsum cs ≡ nsum (add_weights cs ws) + psum cs + total ws
unfolding add_weights total
psum-add [] [] h = omega arith
psum-add (c ∷ cs) [] h = absurd (omega arith)
psum-add [] (w ∷ ws) h = absurd (omega arith)
psum-add (c ∷ cs) (w ∷ ws) h = omega (int_laws, psum-add cs ws (omega arith))

pub length-add : (cs : List ℤ) (ws : List ℕ) → length (add_weights cs ws) ≡ length cs
unfolding add_weights
length-add [] ws = refl
length-add (c ∷ cs) [] = refl
length-add (c ∷ cs) (w ∷ ws) = ap suc (length-add cs ws)

pub psum-modify :
    (cs : List ℤ) (b : ℕ) (f : ℤ → ℤ) {m : ℤ}
    → get_elem? cs b ≡ some m
    → (psum (modify cs b f) + pos_part m ≡ psum cs + pos_part (f m))
      × (nsum (modify cs b f) + neg_part m ≡ nsum cs + neg_part (f m))
psum-modify [] b f h = cc
psum-modify (c ∷ cs) zero f {m} h =
    let e : c ≡ m = ground arith in rw (← e) (omega arith, omega arith)
psum-modify (c ∷ cs) (suc b) f h = let r = psum-modify cs b f h in (omega arith, omega arith)

+ℤ_neg : (c : ℤ) (w : ℕ) → neg_part (c +ℤ pos w) ≤ neg_part c
unfolding ◌+ℤ◌
+ℤ_neg c w = ground arith

-- Every effective weight is above -t.
abbrev pub Above : ℕ → List ℤ → Type 0
Above t = All (λ c. neg_part c < t)

pub Above-add : (t : ℕ) (cs : List ℤ) (ws : List ℕ) → Above t cs → Above t (add_weights cs ws)
unfolding add_weights
Above-add t [] ws h = tt
Above-add t (c ∷ cs) [] h = h
Above-add t (c ∷ cs) (w ∷ ws) h = (ground (arith, +ℤ_neg c w), Above-add t cs ws h.1)

pub Above-modify :
    (t : ℕ) (cs : List ℤ) (b : ℕ) (f : ℤ → ℤ) {m : ℤ}
    → get_elem? cs b ≡ some m
    → neg_part (f m) < t
    → Above t cs
    → Above t (modify cs b f)
Above-modify t [] b f h low all = tt
Above-modify t (c ∷ cs) zero f {m} h low all = let e : c ≡ m = ground arith in (rw e low, all.1)
Above-modify t (c ∷ cs) (suc b) f h low all = (all.0, Above-modify t cs b f h low all.1)

pub psum_zero : (xs : List ℤ) (m : ℤ) → All (λ x. x ≤ℤ m) xs → pos_part m ≡ 0 → psum xs ≡ 0
psum_zero [] m h e = refl
psum_zero (x ∷ xs) m h e = ground (arith, psum_zero xs m h.1 e)

-- What a scan finds: the index `r` of a value `m` that no value exceeds, the first one or a later.
abbrev Found : List ℤ → ℕ → ℕ → ℤ → ℕ → ℤ → Type 0
Found xs i best v r m =
    (v ≤ℤ m)
    × All (λ x. x ≤ℤ m) xs
    × (((r ≡ best) × (m ≡ v)) ⊎ ((j : ℕ) × (r ≡ i + j) × (get_elem? xs j ≡ some m)))

Found-keep :
    (x : ℤ) (xs : List ℤ) (i best r : ℕ) (v m : ℤ)
    → x ≤ℤ v
    → Found xs (i + 1) best v r m
    → Found (x ∷ xs) i best v r m
Found-keep x xs i best r v m le (top, rest, inl e) = (top, (omega arith, rest), inl e)
Found-keep x xs i best r v m le (top, rest, inr (j, at, e)) =
    (top, (omega arith, rest), inr (suc j, omega arith, e))

Found-take :
    (x : ℤ) (xs : List ℤ) (i best r : ℕ) (v m : ℤ)
    → v ≤ℤ x
    → Found xs (i + 1) i x r m
    → Found (x ∷ xs) i best v r m
Found-take x xs i best r v m le (top, rest, inl (at, e)) =
    (omega arith, (top, rest), inr (0, omega arith, ap some (sym e)))
Found-take x xs i best r v m le (top, rest, inr (j, at, e)) =
    (omega arith, (top, rest), inr (suc j, omega arith, e))

scan_best-Found :
    (xs : List ℤ) (i best : ℕ) (v : ℤ) → (m : ℤ) × Found xs i best v (scan_best xs i best v) m
unfolding scan_best
scan_best-Found [] i best v = (v, (omega arith, tt, inl (refl, refl)))
scan_best-Found (x ∷ xs) i best v = elim (Bool-cases (ltb_ℤ v x)) [
  | inl e ↦
      let (m, found) = scan_best-Found xs (i + 1) i x in
      rw e (m, Found-take x xs i best _ v m (ground arith) found)
  | inr e ↦
      let (m, found) = scan_best-Found xs (i + 1) best v in
      rw e (m, Found-keep x xs i best _ v m (ground arith) found)
]

-- The chosen index holds a value that none exceeds.
pub best_index_lem :
    (xs : List ℤ)
    → 0 < length xs
    → (m : ℤ) × All (λ x. x ≤ℤ m) xs × (get_elem? xs (best_index xs) ≡ some m)
unfolding best_index
best_index_lem [] h = elim h [ ]
best_index_lem (x ∷ xs) h = found_at (scan_best xs 1 0 x) (scan_best-Found xs 1 0 x)
  where
    found_at :
        (r : ℕ)
        → ((m : ℤ) × Found xs 1 0 x r m)
        → (m : ℤ) × All (λ y. y ≤ℤ m) (x ∷ xs) × (get_elem? (x ∷ xs) r ≡ some m)
    found_at r (m, (top, rest, inl (at, e))) = (m, (top, rest), rw at (ap some (sym e)))
    found_at r (m, (top, rest, inr (j, at, e))) =
        let at' : r ≡ suc j = omega arith in (m, (top, rest), rw at' e)
