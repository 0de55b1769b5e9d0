-- ===== src/Tests/Admin.antt =====
-- Tests of the guard of the management plane, and the witness of its theorem.
use openrusty.Prelude.{◌≡◌, ◌↔◌, ◌⊎◌, refl, Option, none, some, list_beq, nat_eq, if◌then◌else◌}
use openrusty.Prelude.Text.{Text, codes, trim, strip_prefix}
use openrusty.Admin.{
  AdminConfig, effective_token, ready_path, live_path, is_always_open, Value, presented_token,
  token_eq, forwarded, unauthorized, admin_auth,
}
use openrusty.Admin.Guard.{admin_auth_iff}

abbrev secured : AdminConfig
secured = record { token = some (codes " s3cret ") }

abbrev ascii : Value → Option Text
ascii v = some v

-- A request with the header `authorization: Bearer s3cret`.
abbrev with_bearer : Text → Option Value
with_bearer name =
    if list_beq name (codes "authorization") then some (codes "Bearer s3cret") else none

abbrev with_nothing : Text → Option Value
with_nothing name = none

let_in :
    admin_auth ascii (effective_token secured) (codes "/openrusty/status") with_bearer ≡ forwarded
unfolding admin_auth is_always_open effective_token trim presented_token strip_prefix token_eq
let_in = refl

kept_out :
    admin_auth ascii (effective_token secured) (codes "/openrusty/status") with_nothing
    ≡ unauthorized
unfolding admin_auth is_always_open effective_token trim presented_token
kept_out = refl

admin_auth_iff_example :
    (admin_auth ascii (effective_token secured) (codes "/openrusty/status") with_bearer ≡ forwarded)
    ↔ (((codes "/openrusty/status" ≡ ready_path) ⊎ (codes "/openrusty/status" ≡ live_path))
        ⊎ ((effective_token secured ≡ none)
            ⊎ ((token : Text) × (presented_token ascii with_bearer ≡ some token)
                × (effective_token secured ≡ some token))))
admin_auth_iff_example = admin_auth_iff ascii secured (codes "/openrusty/status") with_bearer
