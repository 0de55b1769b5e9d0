-- ===== src/Prelude/Text.antt =====
-- Texts as lists of code points, and the operations of `str` and `char` that the code uses.
use Prim.Native.Nat.{ℕ, ◌+◌, ◌-◌}
use Prim.Native.Char.{code}
use Prim.Native.String.{String}
use mathlib.Core.Path.{◌≡◌, refl}
use mathlib.Core.Bool.{Bool, true, false, ◌&&◌, ◌||◌}
use mathlib.Core.Option.{Option, none, some}
use mathlib.Core.List.{List, [], ◌∷◌, ◌++◌, map, reverse}
use native.Mathlib.Omega.{arith}
use openrusty.Prelude.Tests.{ltb, leb, ◌==◌, if◌then◌else◌}
use openrusty.Prelude.Interface.{list_beq, nat_eq}

abbrev pub Text : Type 0
Text = List ℕ

-- The code points of a literal.
abbrev pub codes : String → Text
codes String.[] = []
codes (String.◌∷◌ c s) = code c ∷ codes s

abbrev pub is_between : ℕ → ℕ → ℕ → Bool
is_between lo hi c = leb lo c && leb c hi

-- `char::is_whitespace`: the Unicode property White_Space.
unfoldable pub is_whitespace : ℕ → Bool
is_whitespace c =
    is_between 9 13 c
    || c == 32
    || c == 0x85
    || c == 0xa0
    || c == 0x1680
    || is_between 0x2000 0x200a c
    || c == 0x2028
    || c == 0x2029
    || c == 0x202f
    || c == 0x205f
    || c == 0x3000

unfoldable pub trim_start : Text → Text
unfolding is_whitespace
trim_start [] = []
trim_start (c ∷ cs) = let rest = trim_start cs in if is_whitespace c then rest else c ∷ cs

unfoldable pub trim : Text → Text
unfolding trim_start
trim s = reverse (trim_start (reverse (trim_start s)))

abbrev pub is_empty {ℓ} : {A : Type ℓ} → List A → Bool
is_empty [] = true
is_empty (c ∷ cs) = false

abbrev pub is_digit : ℕ → Bool
is_digit = is_between b'0' b'9'

abbrev pub is_upper : ℕ → Bool
is_upper = is_between b'A' b'Z'

abbrev pub is_lower : ℕ → Bool
is_lower = is_between b'a' b'z'

-- `is_ascii_alphanumeric`
abbrev pub is_alphanumeric : ℕ → Bool
is_alphanumeric c = is_digit c || is_upper c || is_lower c

-- `is_ascii_control`
abbrev pub is_control : ℕ → Bool
is_control c = ltb c 32 || c == 127

unfoldable pub to_upper : ℕ → ℕ
to_upper c = if is_lower c then c - 32 else c

unfoldable pub to_lower : ℕ → ℕ
to_lower c = if is_upper c then c + 32 else c

-- `to_ascii_uppercase` and `to_ascii_lowercase` of a text.
abbrev pub uppercase : Text → Text
uppercase = map to_upper

abbrev pub lowercase : Text → Text
lowercase = map to_lower

-- `eq_ignore_ascii_case`
abbrev pub eq_ignore_case : Text → Text → Bool
eq_ignore_case s t = list_beq (lowercase s) (lowercase t)

-- `starts_with(prefix)`
unfoldable pub starts_with : Text → Text → Bool
starts_with s [] = true
starts_with [] (p ∷ prefix) = false
starts_with (c ∷ s) (p ∷ prefix) = c == p && starts_with s prefix

unfoldable pub strip_prefix : Text → Text → Option Text
strip_prefix s [] = some s
strip_prefix [] (p ∷ prefix) = none
strip_prefix (c ∷ s) (p ∷ prefix) = if c == p then strip_prefix s prefix else none

unfoldable pub strip_suffix : Text → Text → Option Text
unfolding strip_prefix
strip_suffix s p = elim (strip_prefix (reverse s) (reverse p)) [
  | none ↦ none
  | some r ↦ some (reverse r)
]

-- The bytes that a code point takes in UTF-8.
abbrev pub utf8_len : ℕ → ℕ
utf8_len c = if ltb c 0x80 then 1 else if ltb c 0x800 then 2 else if ltb c 0x10000 then 3 else 4

-- `str::len`
unfoldable pub byte_len : Text → ℕ
byte_len [] = 0
byte_len (c ∷ s) = utf8_len c + byte_len s

abbrev pub every {ℓ} : {A : Type ℓ} → (A → Bool) → List A → Bool
every p [] = true
every p (c ∷ cs) = p c && every p cs

abbrev pub some_of {ℓ} : {A : Type ℓ} → (A → Bool) → List A → Bool
some_of p [] = false
some_of p (c ∷ cs) = p c || some_of p cs

pub starts_with_append : (s t : Text) → starts_with (s ++ t) s ≡ true
unfolding starts_with
starts_with_append [] t = ground arith
starts_with_append (c ∷ s) t = ground (arith, starts_with_append s t)

-- A text that starts with `p` is `p` and what `strip_prefix` leaves.
pub strip_prefix-some : (s p : Text) {r : Text} → strip_prefix s p ≡ some r → s ≡ p ++ r
unfolding strip_prefix
strip_prefix-some s [] h = ground arith
strip_prefix-some [] (p ∷ ps) h = cc
strip_prefix-some (c ∷ s) (p ∷ ps) {r} h = ground (arith, strip_prefix-some s ps {r = r})

pub strip_prefix-append : (p r : Text) → strip_prefix (p ++ r) p ≡ some r
unfolding strip_prefix
strip_prefix-append [] r = refl
strip_prefix-append (p ∷ ps) r = ground (arith, strip_prefix-append ps r)

pub strip_prefix_self : (p : Text) → strip_prefix p p ≡ some []
unfolding strip_prefix
strip_prefix_self [] = refl
strip_prefix_self (p ∷ ps) = ground (arith, strip_prefix_self ps)

pub starts_with_iff_strip :
    (s p : Text) → starts_with s p ≡ (elim (strip_prefix s p) [ none ↦ false | some r ↦ true ])
unfolding starts_with strip_prefix
starts_with_iff_strip s [] = ground arith
starts_with_iff_strip [] (p ∷ ps) = refl
starts_with_iff_strip (c ∷ s) (p ∷ ps) = ground (arith, starts_with_iff_strip s ps)

pub to_lower_idem : (c : ℕ) → to_lower (to_lower c) ≡ to_lower c
unfolding to_lower
to_lower_idem c = ground arith

pub to_upper_idem : (c : ℕ) → to_upper (to_upper c) ≡ to_upper c
unfolding to_upper
to_upper_idem c = ground arith

pub byte_len-append : (s t : Text) → byte_len (s ++ t) ≡ byte_len s + byte_len t
unfolding byte_len
byte_len-append [] t = omega arith
byte_len-append (c ∷ s) t = omega (arith, byte_len-append s t)

pub nil_of_byte_len : (s : Text) → byte_len s ≡ 0 → s ≡ []
unfolding byte_len
nil_of_byte_len [] h = refl
nil_of_byte_len (c ∷ s) h = absurd (ground arith)
