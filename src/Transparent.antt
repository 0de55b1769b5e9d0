-- ===== src/Transparent.antt =====
-- crates/openrusty-proxy/src/detect.rs: which protocol a connection speaks, from its first bytes. What
-- arrives before the deadline is a list of reads; the end of the list is the deadline.
pub mod Prefixes
pub mod Classify
pub mod Chunks
pub mod Prefixed
pub mod Conn
pub mod Egress
pub mod Split
pub mod Wire
pub mod Received
pub mod Allowed
pub mod Safe
use openrusty.Prelude.{
  ℕ, Bool, true, false, Option, none, some, List, [], ◌∷◌, ◌++◌, ltb, ◌==◌, if◌then◌else◌, length,
  get_elem?,
}
use openrusty.Prelude.Text.{codes, starts_with, is_empty}

abbrev pub Bytes : Type 0
Bytes = List ℕ

pub data Protocol : Type 0 where
  h1 h2 opaque : Protocol

pub data Decision : Type 0 where
  complete : Protocol → Decision
  incomplete : Decision

abbrev pub h2_prefix : Bytes
h2_prefix = codes "PRI *"

abbrev pub h1_methods : List Bytes
h1_methods =
    codes "GET"
    ∷ codes "POST"
    ∷ codes "PUT"
    ∷ codes "DELETE"
    ∷ codes "HEAD"
    ∷ codes "OPTIONS"
    ∷ codes "PATCH"
    ∷ codes "CONNECT"
    ∷ codes "TRACE"
    ∷ []

-- The byte behind a whole method token: a space makes the request line.
abbrev pub after_method : Option ℕ → Decision
after_method none = incomplete
after_method (some c) = if c == b' ' then complete Protocol.h1 else complete Protocol.opaque

-- The loop of `classify` over the methods.
unfoldable pub method_loop : List Bytes → Bytes → Decision
method_loop [] buf = complete Protocol.opaque
method_loop (method ∷ methods) buf =
    let rest = method_loop methods buf in
    if starts_with buf method
    then after_method (get_elem? buf (length method))
    else if starts_with method buf
    then incomplete
    else rest

unfoldable pub classify : Bytes → Decision
unfolding method_loop
classify buf =
    if starts_with buf h2_prefix
    then complete Protocol.h2
    else if starts_with h2_prefix buf
    then incomplete
    else if starts_with buf (codes "PRI ")
    then complete Protocol.opaque
    else method_loop h1_methods buf

-- One read of the stream: bytes, none of them at the end of the stream, or an error.
pub data Read : Type 0 where
  got : Bytes → Read
  failed : Read

-- What `detect` gives: a protocol with all bytes read, beside what the stream still holds, or
-- `UnexpectedEof`, or the error of a read.
pub data Detected : Type 0 where
  settled : Protocol → Bytes → List Read → Detected
  cut broken : Detected

unfoldable pub detect_from : Bytes → List Read → Detected
detect_from buf [] = settled Protocol.opaque buf []
detect_from buf (failed ∷ reads) = broken
detect_from buf (got chunk ∷ reads) =
    let more = detect_from (buf ++ chunk) reads in
    if is_empty chunk then cut else elim (classify (buf ++ chunk)) [
      | complete protocol ↦ settled protocol (buf ++ chunk) reads
      | incomplete ↦ more
    ]

unfoldable pub detect : List Read → Detected
unfolding detect_from
detect reads = detect_from [] reads
