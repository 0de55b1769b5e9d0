-- ===== src/Transparent/Classify.antt =====
-- `classify` of crates/openrusty-proxy/src/detect.rs against a description that does not depend on the
-- order of the methods, and what more bytes can do to its verdict.
use openrusty.Prelude.{
  ◌≡◌, refl, Bool, true, false, ◌||◌, List, [], ◌∷◌, ◌++◌, if◌then◌else◌, arith, length, All,
  Bool-cases, inl, inr,
}
use openrusty.Prelude.Text.{codes, starts_with, starts_with_append, some_of}
use openrusty.Transparent.{
  Bytes, Protocol, Decision, complete, incomplete, h2_prefix, h1_methods, method_loop, classify,
}
use openrusty.Transparent.Prefixes.{
  alike, alike_of_prefixes, starts_with_trans, starts_with_more, starts_with_less, starts_with_snoc,
  snoc_starts_with, get_behind_prefix, get_behind_none,
}

-- A method and the space behind it.
abbrev pub token : Bytes → Bytes
token m = m ++ b' ' ∷ []

abbrev pub is_h1 : List Bytes → Bytes → Bool
is_h1 methods buf = some_of (λ m. starts_with buf (token m)) methods

abbrev pub may_grow : List Bytes → Bytes → Bool
may_grow methods buf = some_of (λ m. starts_with (token m) buf) methods

abbrev pub Apart : Bytes → List Bytes → Type 0
Apart m ms = All (λ n. alike m n ≡ false) ms

abbrev PrefixFree : List Bytes → Type 0
PrefixFree [] = Unit
PrefixFree (m ∷ ms) = Apart m ms × PrefixFree ms

pub no_h1 :
    (buf m : Bytes) (ms : List Bytes) → starts_with buf m ≡ true → Apart m ms → is_h1 ms buf ≡ false
no_h1 buf m [] h a = refl
no_h1 buf m (n ∷ ms) h a =
    ground (arith, starts_with_snoc buf n b' ', alike_of_prefixes buf m n, no_h1 buf m ms)

no_growth :
    (buf m : Bytes) (ms : List Bytes)
    → starts_with buf m ≡ true
    → Apart m ms
    → may_grow ms buf ≡ false
no_growth buf m [] h a = refl
no_growth buf m (n ∷ ms) h a = ground (
  arith,
  starts_with_trans (token n) buf m,
  starts_with_append n (b' ' ∷ []),
  alike_of_prefixes (token n) m n,
  no_growth buf m ms,
)

no_h1_below :
    (buf m : Bytes) (ms : List Bytes) → starts_with m buf ≡ true → Apart m ms → is_h1 ms buf ≡ false
unfolding starts_with
no_h1_below buf m [] h a = refl
no_h1_below buf m (n ∷ ms) h a = ground (
  arith,
  starts_with_trans m buf (token n),
  starts_with_less m n (b' ' ∷ []),
  no_h1_below buf m ms,
)

methods-PrefixFree : PrefixFree h1_methods
unfolding starts_with
methods-PrefixFree = ground arith

pub h2-Apart : Apart h2_prefix h1_methods
unfolding starts_with
h2-Apart = ground arith

pri-Apart : Apart (codes "PRI ") h1_methods
unfolding starts_with
pri-Apart = ground arith

abbrev loop_verdict : List Bytes → Bytes → Decision
loop_verdict ms buf =
    if is_h1 ms buf
    then complete Protocol.h1
    else if may_grow ms buf
    then incomplete
    else complete Protocol.opaque

method_loop_lem :
    (ms : List Bytes) (buf : Bytes) → PrefixFree ms → method_loop ms buf ≡ loop_verdict ms buf
unfolding method_loop
method_loop_lem [] buf p = refl
method_loop_lem (m ∷ ms) buf p = elim (Bool-cases (starts_with buf m)) [
  | inl whole ↦ ground (
    arith,
    starts_with_snoc buf m b' ',
    snoc_starts_with m buf b' ',
    no_h1 buf m ms whole p.0,
    no_growth buf m ms whole p.0,
    get_behind_none buf (length m),
    get_behind_prefix m buf,
  )
  | inr part ↦ elim (Bool-cases (starts_with m buf)) [
    | inl short ↦ ground (
      arith,
      starts_with_snoc buf m b' ',
      snoc_starts_with m buf b' ',
      no_h1_below buf m ms short p.0,
    )
    | inr other ↦ ground (
      arith,
      starts_with_snoc buf m b' ',
      snoc_starts_with m buf b' ',
      method_loop_lem ms buf p.1,
    )
  ]
]

-- The verdict on what has been read: HTTP/2 for its preface, HTTP/1 for a method and a space, none yet
-- for what may still become one of these, and opaque for all else.
pub classify_lem :
    (buf : Bytes)
    → classify buf ≡ (
        if starts_with buf h2_prefix
        then complete Protocol.h2
        else if is_h1 h1_methods buf
        then complete Protocol.h1
        else if starts_with h2_prefix buf || may_grow h1_methods buf
        then incomplete
        else complete Protocol.opaque)
unfolding classify
classify_lem buf = elim (Bool-cases (starts_with buf h2_prefix)) [
  | inl preface ↦ ground arith
  | inr other ↦ elim (Bool-cases (starts_with h2_prefix buf)) [
    | inl short ↦ ground (arith, no_h1_below buf h2_prefix h1_methods short h2-Apart)
    | inr no_preface ↦ elim (Bool-cases (starts_with buf (codes "PRI "))) [
      | inl pri ↦ ground (
        arith,
        no_h1 buf (codes "PRI ") h1_methods pri pri-Apart,
        no_growth buf (codes "PRI ") h1_methods pri pri-Apart,
      )
      | inr rest ↦ ground (arith, method_loop_lem h1_methods buf methods-PrefixFree)
    ]
  ]
]

pub is_h1_more :
    (ms : List Bytes) (buf e : Bytes) → is_h1 ms buf ≡ true → is_h1 ms (buf ++ e) ≡ true
is_h1_more [] buf e h = cc
is_h1_more (m ∷ ms) buf e h = ground (arith, starts_with_more buf e (token m), is_h1_more ms buf e)

pub may_grow_less :
    (ms : List Bytes) (buf e : Bytes) → may_grow ms (buf ++ e) ≡ true → may_grow ms buf ≡ true
may_grow_less [] buf e h = cc
may_grow_less (m ∷ ms) buf e h =
    ground (arith, starts_with_less (token m) buf e, may_grow_less ms buf e)
