-- ===== src/Tests/Phase.antt =====
-- crates/openrusty-core/src/phase.rs at concrete inputs.
use openrusty.Prelude.{◌≡◌, refl, none}
use openrusty.Prelude.Int.{negsuc}
use openrusty.Phase.{from_abi}

unknown_code_is_rejected : from_abi (negsuc 1) ≡ none
unfolding from_abi
unknown_code_is_rejected = refl
