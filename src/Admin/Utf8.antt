-- ===== src/Admin/Utf8.antt =====
-- The bytes of a text, `str::as_bytes`: UTF-8, which no two texts share.
use openrusty.Prelude.{
  ℕ, ◌+◌, ◌/◌, ◌%◌, ◌≡◌, List, [], ◌∷◌, ◌++◌, ltb, if◌then◌else◌, refl, sym, ap₂, arith,
}
use openrusty.Prelude.Text.{Text}

abbrev pub utf8 : ℕ → List ℕ
utf8 c =
    if ltb c 0x80
    then c ∷ []
    else if ltb c 0x800
    then (192 + c / 64) ∷ (128 + c % 64) ∷ []
    else if ltb c 0x10000
    then (224 + c / 4096) ∷ (128 + c / 64 % 64) ∷ (128 + c % 64) ∷ []
    else (240 + c / 262144) ∷ (128 + c / 4096 % 64) ∷ (128 + c / 64 % 64) ∷ (128 + c % 64) ∷ []

unfoldable pub as_bytes : Text → List ℕ
as_bytes [] = []
as_bytes (c ∷ cs) = utf8 c ++ as_bytes cs

three_digits : (c d : ℕ) → c / 4096 ≡ d / 4096 → c / 64 % 64 ≡ d / 64 % 64 → c % 64 ≡ d % 64 → c ≡ d
three_digits c d h i j = omega (arith, h, i, j)

four_digits :
    (c d : ℕ)
    → c / 262144 ≡ d / 262144
    → c / 4096 % 64 ≡ d / 4096 % 64
    → c / 64 % 64 ≡ d / 64 % 64
    → c % 64 ≡ d % 64
    → c ≡ d
four_digits c d g h i j = omega (arith, g, h, i, j)

utf8_apart : (c d : ℕ) (xs ys : List ℕ) → utf8 c ++ xs ≡ utf8 d ++ ys → (c ≡ d) × (xs ≡ ys)
utf8_apart c d xs ys h = ground (arith, three_digits c d, four_digits c d)

utf8_some : (c : ℕ) (xs : List ℕ) → utf8 c ++ xs ≡ [] → ⊥
utf8_some c xs h = ground arith

pub as_bytes-injective : (s t : Text) → as_bytes s ≡ as_bytes t → s ≡ t
unfolding as_bytes
as_bytes-injective [] [] h = refl
as_bytes-injective [] (d ∷ ds) h = absurd (utf8_some d (as_bytes ds) (sym h))
as_bytes-injective (c ∷ cs) [] h = absurd (utf8_some c (as_bytes cs) h)
as_bytes-injective (c ∷ cs) (d ∷ ds) h =
    let (same, rest) = utf8_apart c d (as_bytes cs) (as_bytes ds) h in
    ap₂ (λ x xs. x ∷ xs) same (as_bytes-injective cs ds rest)
