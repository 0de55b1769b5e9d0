-- ===== src/Admin/Bits.antt =====
-- When the exclusive or, and the or, of two numbers is zero.
use Prim.Native.Nat.{bit_xor, bit_or, digits, differ, two, bit_xor-bitwise, bit_or-bitwise}
use openrusty.Prelude.{ℕ, zero, suc, ◌+◌, ◌*◌, ◌/◌, ◌%◌, ◌≤◌, ◌≡◌, max, refl, sym, ◌∙◌, arith, ap₂}

differ_self : (x : ℕ) → differ x x ≡ 0
differ_self zero = refl
differ_self (suc x) = differ_self x

differ_zero : (x y : ℕ) → differ x y ≡ 0 → x ≡ y
differ_zero zero y h = omega (arith, h)
differ_zero (suc x) zero h = omega (arith, h)
differ_zero (suc x) (suc y) h = omega (arith, differ_zero x y h)

both_zero : (q r : ℕ) → q * two + r ≡ 0 → (q ≡ 0) × (r ≡ 0)
both_zero q r h = (omega (arith, h), omega (arith, h))

halves : (a b : ℕ) → a / two ≡ b / two → a % two ≡ b % two → a ≡ b
halves a b q r = omega (arith, q, r)

half_le : (n a : ℕ) → suc a ≤ suc n → suc a / two ≤ n
half_le n a h = omega (arith, h)

xor_digits_zero : (n a b : ℕ) → a ≤ n → digits (λ x. x) differ n a b ≡ 0 → a ≡ b
xor_digits_zero zero a b le h = omega (arith, h)
xor_digits_zero (suc n) zero b le h = omega (arith, h)
xor_digits_zero (suc n) (suc a) b le h =
    let (high, low) =
      both_zero (digits (λ x. x) differ n (suc a / two) (b / two)) (differ (suc a % two) (b % two))
        h in
    halves (suc a) b (xor_digits_zero n (suc a / two) (b / two) (half_le n a le) high)
      (differ_zero (suc a % two) (b % two) low)

xor_digits_self : (n a : ℕ) → a ≤ n → digits (λ x. x) differ n a a ≡ 0
xor_digits_self zero a le = omega arith
xor_digits_self (suc n) zero le = refl
xor_digits_self (suc n) (suc a) le =
    ap₂ (λ x y. x * two + y) (xor_digits_self n (suc a / two) (half_le n a le))
      (differ_self (suc a % two))

or_digits_zero : (n a b : ℕ) → a ≤ n → digits (λ x. x) max n a b ≡ 0 → (a ≡ 0) × (b ≡ 0)
or_digits_zero zero a b le h = (omega arith, omega (arith, h))
or_digits_zero (suc n) zero b le h = (refl, omega (arith, h))
or_digits_zero (suc n) (suc a) b le h =
    let (high, low) =
      both_zero (digits (λ x. x) max n (suc a / two) (b / two)) (max (suc a % two) (b % two)) h in
    let (q, r) = or_digits_zero n (suc a / two) (b / two) (half_le n a le) high in
    (omega (arith, q, low), omega (arith, r, low))

pub bit_xor-zero : (a b : ℕ) → bit_xor a b ≡ 0 → a ≡ b
bit_xor-zero a b h = xor_digits_zero a a b (omega arith) (sym (bit_xor-bitwise a b) ∙ h)

pub bit_xor_self : (a : ℕ) → bit_xor a a ≡ 0
bit_xor_self a = bit_xor-bitwise a a ∙ xor_digits_self a a (omega arith)

pub bit_or-zero : (a b : ℕ) → bit_or a b ≡ 0 → (a ≡ 0) × (b ≡ 0)
bit_or-zero a b h = or_digits_zero a a b (omega arith) (sym (bit_or-bitwise a b) ∙ h)
