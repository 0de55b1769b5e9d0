-- ===== src/Transparent/Received.antt =====
-- The bytes on both sides of the sniff of crates/openrusty-proxy/src/detect.rs.
use openrusty.Prelude.{◌≡◌, inl, inr, List, [], ◌∷◌, ◌++◌, arith, Bool-cases}
use mathlib.Core.List.{append-nil, append_assoc}
use openrusty.Prelude.Text.{is_empty}
use openrusty.Transparent.{
  Bytes, Protocol, classify, Read, got, failed, settled, detect_from, detect,
}
use openrusty.Transparent.Chunks.{Decision-cases}
use openrusty.Transparent.Conn.{Client, bare, prefixed}

-- The bytes of some reads, up to the first error.
abbrev pub received : List Read → Bytes
received [] = []
received (failed ∷ reads) = []
received (got chunk ∷ reads) = chunk ++ received reads

abbrev pub stream : Client → Bytes
stream (bare reads) = received reads
stream (prefixed prefix reads) = prefix ++ received reads

detect_from-received :
    (reads : List Read) (buf : Bytes) (p : Protocol) (prefix : Bytes) (left : List Read)
    → detect_from buf reads ≡ settled p prefix left
    → prefix ++ received left ≡ buf ++ received reads
unfolding detect_from
detect_from-received [] buf p prefix left h = ground (arith, h, append-nil buf)
detect_from-received (failed ∷ reads) buf p prefix left h = cc
detect_from-received (got c ∷ reads) buf p prefix left h = elim (Bool-cases (is_empty c)) [
  | inl ended ↦ ground (arith, ended, h)
  | inr more ↦ elim (Decision-cases (classify (buf ++ c))) [
    | inl undecided ↦ ground (
      arith,
      more,
      undecided,
      h,
      detect_from-received reads (buf ++ c) p prefix left,
      append_assoc buf c (received reads),
    )
    | inr (q, done) ↦ ground (arith, more, done, h, append_assoc buf c (received reads))
  ]
]

-- A sniff that settles loses no byte: what it hands on and what it leaves is what was there.
pub detect-received :
    (reads : List Read) (p : Protocol) (prefix : Bytes) (left : List Read)
    → detect reads ≡ settled p prefix left
    → stream (prefixed prefix left) ≡ received reads
unfolding detect
detect-received reads p prefix left h = detect_from-received reads [] p prefix left h
