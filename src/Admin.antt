-- ===== src/Admin.antt =====
-- crates/openrusty-server/src/admin_auth.rs: the token that guards the management plane, and
-- `AdminConfig` of crates/openrusty-core/src/config/admin.rs. The header map of the `http` crate is its
-- look-up of the first value under a name, and its `to_str` a parameter.
pub mod Bits
pub mod Utf8
pub mod Guard
use Prim.Native.Nat.{bit_xor, bit_or}
use openrusty.Prelude.{
  ℕ, Bool, true, false, ◌&&◌, ◌||◌, Option, none, some, List, [], ◌∷◌, ◌==◌, if◌then◌else◌, length,
  list_beq, nat_eq, ◌>>=◌,
}
use openrusty.Prelude.Text.{Text, codes, trim, is_empty, strip_prefix}
use Utf8.{as_bytes}

pub record AdminConfig : Type 0 where
  pub token : Option Text

-- `map(str::trim).filter(|t| !t.is_empty())`
abbrev pub trimmed : Option Text → Option Text
trimmed none = none
trimmed (some t) = if is_empty (trim t) then none else some (trim t)

unfoldable pub effective_token : AdminConfig → Option Text
effective_token cfg = trimmed cfg.token

abbrev pub ready_path : Text
ready_path = codes "/openrusty/ready"

abbrev pub live_path : Text
live_path = codes "/openrusty/live"

unfoldable pub is_always_open : Text → Bool
is_always_open path = list_beq ready_path path || list_beq live_path path

-- The value of a header: its bytes.
abbrev pub Value : Type 0
Value = List ℕ

abbrev pub bearer : Text → Option Text
bearer auth = elim (strip_prefix auth (codes "Bearer ")) [
  | some rest ↦ some rest
  | none ↦ strip_prefix auth (codes "bearer ")
]

unfoldable pub presented_token : (Value → Option Text) → (Text → Option Value) → Option Text
presented_token to_str headers =
    elim (trimmed (headers (codes "authorization") >>= to_str >>= bearer)) [
      | some token ↦ some token
      | none ↦ trimmed (headers (codes "x-openrusty-token") >>= to_str)
    ]

-- The fold over the zipped bytes; both operations stay inside a `u8`.
unfoldable pub difference : ℕ → List ℕ → List ℕ → ℕ
difference acc [] bs = acc
difference acc (x ∷ xs) [] = acc
difference acc (x ∷ xs) (y ∷ ys) = difference (bit_or acc (bit_xor x y)) xs ys

unfoldable pub token_eq : Text → Text → Bool
unfolding difference as_bytes
token_eq a b =
    let xs = as_bytes a in let ys = as_bytes b in length xs == length ys && difference 0 xs ys == 0

pub data Response : Type 0 where
  forwarded unauthorized : Response

unfoldable pub admin_auth :
    (Value → Option Text) → Option Text → Text → (Text → Option Value) → Response
admin_auth to_str expected path headers = if is_always_open path then forwarded else elim expected [
  | none ↦ forwarded
  | some secret ↦ elim (presented_token to_str headers) [
    | none ↦ unauthorized
    | some presented ↦ if token_eq presented secret then forwarded else unauthorized
  ]
]
