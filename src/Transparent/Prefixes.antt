-- ===== src/Transparent/Prefixes.antt =====
-- Prefixes of byte strings, for crates/openrusty-proxy/src/detect.rs.
use openrusty.Prelude.{
  ℕ, zero, suc, ◌≡◌, refl, Bool, true, false, ◌&&◌, ◌||◌, none, some, [], ◌∷◌, ◌++◌, ◌==◌, arith,
  length, get_elem?,
}
use openrusty.Prelude.Text.{starts_with}
use openrusty.Transparent.{Bytes}

abbrev pub alike : Bytes → Bytes → Bool
alike a b = starts_with a b || starts_with b a

-- Two prefixes of one string are prefixes of each other, one way or the other.
pub alike_of_prefixes :
    (x a b : Bytes) → starts_with x a ≡ true → starts_with x b ≡ true → alike a b ≡ true
unfolding starts_with
alike_of_prefixes x a [] h k = ground arith
alike_of_prefixes x [] (b ∷ bs) h k = ground arith
alike_of_prefixes [] (a ∷ as') (b ∷ bs) h k = cc
alike_of_prefixes (c ∷ x) (a ∷ as') (b ∷ bs) h k = ground (arith, alike_of_prefixes x as' bs)

-- A prefix of a prefix.
pub starts_with_trans :
    (x y z : Bytes) → starts_with x y ≡ true → starts_with y z ≡ true → starts_with x z ≡ true
unfolding starts_with
starts_with_trans x y [] h k = ground arith
starts_with_trans x [] (z ∷ zs) h k = cc
starts_with_trans [] (y ∷ ys) (z ∷ zs) h k = cc
starts_with_trans (c ∷ x) (y ∷ ys) (z ∷ zs) h k = ground (arith, starts_with_trans x ys zs)

-- A longer string keeps its prefixes.
pub starts_with_more : (x e p : Bytes) → starts_with x p ≡ true → starts_with (x ++ e) p ≡ true
unfolding starts_with
starts_with_more x e [] h = ground arith
starts_with_more [] e (p ∷ ps) h = cc
starts_with_more (c ∷ x) e (p ∷ ps) h = ground (arith, starts_with_more x e ps)

-- What continues `x` and begins `p` has `x` begin `p`.
pub starts_with_less : (p x e : Bytes) → starts_with p (x ++ e) ≡ true → starts_with p x ≡ true
unfolding starts_with
starts_with_less p [] e h = ground arith
starts_with_less [] (c ∷ x) e h = cc
starts_with_less (q ∷ p) (c ∷ x) e h = ground (arith, starts_with_less p x e)

-- A token and the byte behind it.
pub starts_with_snoc :
    (x m : Bytes) (c : ℕ)
    → starts_with x (m ++ c ∷ [])
      ≡ (starts_with x m && (elim (get_elem? x (length m)) [ none ↦ false | some d ↦ d == c ]))
unfolding starts_with
starts_with_snoc [] [] c = refl
starts_with_snoc (d ∷ x) [] c = ground arith
starts_with_snoc [] (b ∷ m) c = refl
starts_with_snoc (d ∷ x) (b ∷ m) c = ground (arith, starts_with_snoc x m c)

-- A prefix of a token with one byte more is one of the token, or all of it.
pub snoc_starts_with :
    (m x : Bytes) (c : ℕ)
    → starts_with (m ++ c ∷ []) x ≡ (
        starts_with m x
        || (starts_with x m && (elim (get_elem? x (length m)) [
          | none ↦ true
          | some d ↦
              c == d && (elim (get_elem? x (suc (length m))) [ none ↦ true | some e ↦ false ])
        ])))
unfolding starts_with
snoc_starts_with m [] c = ground arith
snoc_starts_with [] (d ∷ []) c = ground arith
snoc_starts_with [] (d ∷ e ∷ x) c = ground arith
snoc_starts_with (b ∷ m) (d ∷ x) c = ground (arith, snoc_starts_with m x c)

-- A prefix of a token has no byte behind it.
pub get_behind_prefix : (m x : Bytes) → starts_with m x ≡ true → get_elem? x (length m) ≡ none
unfolding starts_with
get_behind_prefix m [] h = refl
get_behind_prefix [] (d ∷ x) h = cc
get_behind_prefix (b ∷ m) (d ∷ x) h = ground (arith, get_behind_prefix m x)

pub get_behind_none : (x : Bytes) (i : ℕ) → get_elem? x i ≡ none → get_elem? x (suc i) ≡ none
get_behind_none [] i h = refl
get_behind_none (c ∷ x) zero h = cc
get_behind_none (c ∷ x) (suc i) h = get_behind_none x i h
