-- ===== src/Dynamic.antt =====
-- The bindings of methods and paths to modules: the rules for their parts in
-- crates/openrusty-core/src/config/dynamic.rs. A text is a list of code points; the tests that the code
-- makes on bytes are made on code points, where a code point that takes several bytes fails them too.
pub mod Table
pub mod Order
pub mod Placement
pub mod Valid
pub mod Binding
pub mod Lookup
pub mod Reload
pub mod Enforced
pub mod Steps
use openrusty.Prelude.{
  ℕ, Bool, true, false, not, ◌&&◌, ◌||◌, Option, none, some, List, [], ◌∷◌, ltb, ◌==◌,
  if◌then◌else◌, contains, nat_eq,
}
use openrusty.Prelude.Text.{
  Text, trim, is_empty, is_alphanumeric, is_control, uppercase, starts_with, strip_suffix, byte_len,
  every, some_of,
}

-- The field `module` of the source is `target` here.
pub record DynamicRoute : Type 0 where
  pub method : Text
  pub path : Text
  pub target : Text

abbrev is_name_char : ℕ → Bool
is_name_char c = is_alphanumeric c || c == b'.' || c == b'_' || c == b'-'

unfoldable pub valid_module_name : Text → Bool
valid_module_name [] = false
valid_module_name (c ∷ cs) = is_alphanumeric c && every is_name_char cs

abbrev pub max_route_path_len : ℕ
max_route_path_len = 1024

abbrev tchar_marks : List ℕ
tchar_marks =
    b'!' ∷ b'#' ∷ b'$' ∷ b'%' ∷ b'&' ∷ 39 ∷ b'*' ∷ b'+' ∷ b'-' ∷ b'.' ∷ b'^' ∷ b'_' ∷ 96 ∷ b'|'
    ∷ b'~' ∷ []

unfoldable pub is_tchar : ℕ → Bool
is_tchar b = is_alphanumeric b || contains tchar_marks b

unfoldable pub normalize_method : Text → Option Text
unfolding is_tchar trim byte_len
normalize_method method =
    let m = trim method in
    if is_empty m || ltb 32 (byte_len m) || not (every is_tchar m) then none else some (uppercase m)

abbrev pub slash : Text
slash = b'/' ∷ []

-- The marker of a prefix binding.
abbrev pub star : Text
star = b'/' ∷ b'*' ∷ []

abbrev is_no_path_char : ℕ → Bool
is_no_path_char b = is_control b || b == b'?' || b == b'#'

unfoldable pub normalize_route_path : Text → Option Text
unfolding starts_with byte_len
normalize_route_path path =
    if not (starts_with path slash) || ltb max_route_path_len (byte_len path)
    then none
    else if some_of is_no_path_char path
    then none
    else some path
