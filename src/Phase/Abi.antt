-- ===== src/Phase/Abi.antt =====
-- The codes of crates/openrusty-core/src/phase.rs against the values that they stand for.
use openrusty.Prelude.{◌≡◌, ◌↔◌, refl, ap, ◌∙◌, Bool, true, none, some, arith, if◌then◌else◌}
use openrusty.Prelude.Int.{ℤ, pos, negsuc}
use openrusty.Phase.{Phase, id, from_i32, Decision, from_abi, to_abi, is_status}

-- The decisions that have a code of their own.
abbrev pub is_wire : Decision → Bool
is_wire (Decision.deny status) = is_status status
is_wire _ = true

-- Decoding an encoded decision gives the decision back if it is not a denial, or is a denial with
-- a status from 100 to 599; any other denial decodes to nothing.
pub from_abi-to_abi : (d : Decision) → from_abi (to_abi d) ≡ (if is_wire d then some d else none)
unfolding from_abi to_abi
from_abi-to_abi (Decision.deny s) = ground arith
from_abi-to_abi _ = refl

-- Every code decodes to at most one decision, and that decision encodes to the code again.
pub to_abi_of_from_abi : (c : ℤ) (d : Decision) → from_abi c ≡ some d → to_abi d ≡ c
unfolding from_abi to_abi
to_abi_of_from_abi (pos c) d h = ground arith
to_abi_of_from_abi (negsuc n) d h = ground arith

from_i32-id : (p : Phase) → from_i32 (pos (id p)) ≡ some p
unfolding from_i32 id
from_i32-id Phase.post_read = refl
from_i32-id _ = refl

id_of_from_i32 : (v : ℤ) (p : Phase) → from_i32 v ≡ some p → v ≡ pos (id p)
unfolding from_i32 id
id_of_from_i32 (pos v) p h = ground arith
id_of_from_i32 (negsuc v) p h = cc

-- An `i32` decodes to a phase exactly when it is the discriminant of that phase.
pub from_i32_iff : (v : ℤ) (p : Phase) → (from_i32 v ≡ some p) ↔ (v ≡ pos (id p))
from_i32_iff v p = (id_of_from_i32 v p, λ e. ap from_i32 e ∙ from_i32-id p)
