-- ===== src/Admin/Guard.antt =====
-- Whom crates/openrusty-server/src/admin_auth.rs lets in.
use Prim.Native.Nat.{bit_xor, bit_or}
use openrusty.Prelude.{
  ℕ, ◌≡◌, ◌↔◌, ◌⊎◌, inl, inr, refl, ap, sym, ◌∙◌, subst, Bool, true, false, Option, none, some,
  List, [], ◌∷◌, length, list_beq, list_beq_iff, nat_eq, arith, Bool-cases, if◌then◌else◌,
}
use openrusty.Prelude.Text.{Text}
use openrusty.Admin.{
  AdminConfig, effective_token, ready_path, live_path, is_always_open, Value, presented_token,
  difference, token_eq, Response, forwarded, unauthorized, admin_auth,
}
use openrusty.Admin.Bits.{bit_xor-zero, bit_xor_self, bit_or-zero}
use openrusty.Admin.Utf8.{as_bytes, as_bytes-injective}

difference_zero :
    (xs ys : List ℕ) (acc : ℕ)
    → length xs ≡ length ys
    → difference acc xs ys ≡ 0
    → (acc ≡ 0) × (xs ≡ ys)
unfolding difference
difference_zero [] [] acc len h = (h, refl)
difference_zero [] (y ∷ ys) acc len h = absurd (ground (arith, len))
difference_zero (x ∷ xs) [] acc len h = absurd (ground (arith, len))
difference_zero (x ∷ xs) (y ∷ ys) acc len h =
    let (folded, same) = difference_zero xs ys (bit_or acc (bit_xor x y)) (ground (arith, len)) h in
    let (none_before, equal) = bit_or-zero acc (bit_xor x y) folded in
    (none_before, ground (arith, bit_xor-zero x y equal, same))

difference_self : (xs : List ℕ) → difference 0 xs xs ≡ 0
unfolding difference
difference_self [] = refl
difference_self (x ∷ xs) =
    ap (λ d. difference d xs xs) (ap (bit_or 0) (bit_xor_self x)) ∙ difference_self xs

-- The comparison without an early exit is equality.
token_eq_iff : (a b : Text) → (token_eq a b ≡ true) ↔ (a ≡ b)
unfolding token_eq
token_eq_iff a b = (
  (λ h.
      as_bytes-injective a b
        (difference_zero (as_bytes a) (as_bytes b) 0 (ground (arith, h)) (ground (arith, h))).1),
  (λ e. subst (λ c. token_eq a c ≡ true) e (ground (arith, difference_self (as_bytes a)))),
)

is_always_open_iff :
    (path : Text) → (is_always_open path ≡ true) ↔ ((path ≡ ready_path) ⊎ (path ≡ live_path))
unfolding is_always_open
is_always_open_iff path = (
  (λ h. elim (Bool-cases (list_beq ready_path path)) [
    | inl ready ↦ inl (sym ((list_beq_iff ready_path path).0 ready))
    | inr other ↦ inr (sym ((list_beq_iff live_path path).0 (ground (arith, h, other))))
  ]),
  (λ e. elim e [
    | inl ready ↦ ground (arith, (list_beq_iff ready_path path).1 (sym ready))
    | inr live ↦ ground (arith, (list_beq_iff live_path path).1 (sym live))
  ]),
)

-- The whole guard, once the path is no probe's.
abbrev Entitled : Option Text → Option Text → Type 0
Entitled presented expected =
    (expected ≡ none) ⊎ ((token : Text) × (presented ≡ some token) × (expected ≡ some token))

compared_iff :
    (presented expected : Option Text)
    → ((elim expected [
      | none ↦ forwarded
      | some secret ↦ elim presented [
        | none ↦ unauthorized
        | some token ↦ if token_eq token secret then forwarded else unauthorized
      ]
    ])
        ≡ forwarded)
      ↔ Entitled presented expected
compared_iff presented none = (λ h. inl refl, λ e. refl)
compared_iff none (some secret) =
    (λ h. cc, λ e. elim e [ inl no_secret ↦ cc | inr (token, p, q) ↦ cc ])
compared_iff (some given) (some secret) = (
  (λ h. inr (given, refl, ap some (sym ((token_eq_iff given secret).0 (ground (arith, h)))))),
  (λ e. elim e [
    | inl no_secret ↦ cc
    | inr (token, p, q) ↦ ground (arith, p, q, (token_eq_iff given secret).1)
  ]),
)

open_or_iff :
    {P Q : Type 0} (b : Bool) (r : Response)
    → (b ≡ true) ↔ P
    → (r ≡ forwarded) ↔ Q
    → ((if b then forwarded else r) ≡ forwarded) ↔ (P ⊎ Q)
open_or_iff true r p q = (λ h. inl (p.0 refl), λ e. refl)
open_or_iff false r p q =
    ((λ h. inr (q.0 h)), (λ e. elim e [ inl o ↦ absurd (impossible (p.1 o)) | inr k ↦ q.1 k ]))
  where
    impossible : false ≡ true → ⊥
    impossible h = cc

-- A request to the management plane is let through exactly if it asks for one of the two probes, or the
-- configuration has no token, or the request presents the very token that the configuration has.
pub admin_auth_iff :
    (to_str : Value → Option Text) (cfg : AdminConfig) (path : Text) (headers : Text → Option Value)
    → (admin_auth to_str (effective_token cfg) path headers ≡ forwarded) ↔ (
        ((path ≡ ready_path) ⊎ (path ≡ live_path))
        ⊎ ((effective_token cfg ≡ none)
            ⊎ ((token : Text) × (presented_token to_str headers ≡ some token)
                × (effective_token cfg ≡ some token))))
unfolding admin_auth
admin_auth_iff to_str cfg path headers =
    open_or_iff (is_always_open path)
      (elim (effective_token cfg) [
        | none ↦ forwarded
        | some secret ↦ elim (presented_token to_str headers) [
          | none ↦ unauthorized
          | some token ↦ if token_eq token secret then forwarded else unauthorized
        ]
      ])
      (is_always_open_iff path)
      (compared_iff (presented_token to_str headers) (effective_token cfg))
