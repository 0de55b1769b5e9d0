-- ===== src/Phase.antt =====
-- crates/openrusty-core/src/phase.rs: the request phases, the decisions of a plugin and the codes
-- by which they cross the guest boundary. An `i32` is an integer, a status (`u16`) is a number.
pub mod Abi
use openrusty.Prelude.{
  ℕ, ◌≤◌, Bool, true, false, ◌&&◌, Option, none, some, leb, ◌==◌, if◌then◌else◌,
}
use openrusty.Prelude.Int.{ℤ, pos, negsuc}

pub data Phase : Type 0 where
  post_read rewrite access content balancer header_filter body_filter log : Phase

-- The discriminants of the `#[repr(i32)]` enum.
unfoldable pub id : Phase → ℕ
id Phase.post_read = 0
id Phase.rewrite = 1
id Phase.access = 2
id Phase.content = 3
id Phase.balancer = 4
id Phase.header_filter = 5
id Phase.body_filter = 6
id Phase.log = 7

abbrev pub count : ℕ
count = 8

phase_of : ℕ → Option Phase
phase_of v =
    if v == 0
    then some Phase.post_read
    else if v == 1
    then some Phase.rewrite
    else if v == 2
    then some Phase.access
    else if v == 3
    then some Phase.content
    else if v == 4
    then some Phase.balancer
    else if v == 5
    then some Phase.header_filter
    else if v == 6
    then some Phase.body_filter
    else if v == 7
    then some Phase.log
    else none

unfoldable pub from_i32 : ℤ → Option Phase
unfolding phase_of
from_i32 (pos v) = phase_of v
from_i32 (negsuc v) = none

pub data Decision : Type 0 where
  ok declined done : Decision
  deny : ℕ → Decision

-- The constants of `mod abi`; `negsuc n` is -(n + 1).
abbrev pub ok_code : ℤ
ok_code = pos 0

abbrev pub declined_code : ℤ
declined_code = negsuc 4

abbrev pub done_code : ℤ
done_code = negsuc 3

abbrev pub error_code : ℤ
error_code = negsuc 0

-- `(100..=599).contains(&c)`
abbrev pub is_status : ℕ → Bool
is_status c = leb 100 c && leb c 599

unfoldable pub from_abi : ℤ → Option Decision
from_abi (pos c) =
    if c == 0 then some Decision.ok else if is_status c then some (Decision.deny c) else none
from_abi (negsuc n) =
    if n == 4 then some Decision.declined else if n == 3 then some Decision.done else none

unfoldable pub to_abi : Decision → ℤ
to_abi Decision.ok = ok_code
to_abi Decision.declined = declined_code
to_abi Decision.done = done_code
to_abi (Decision.deny status) = if is_status status then pos status else error_code

unfoldable pub is_terminal : Decision → Bool
is_terminal Decision.done = true
is_terminal (Decision.deny _) = true
is_terminal _ = false
