-- ===== src/Transparent/Chunks.antt =====
-- The loop of crates/openrusty-proxy/src/detect.rs: how the stream is cut into reads does not matter.
use openrusty.Prelude.{
  ◌≡◌, ◌∙◌, sym, refl, ap, ◌⊎◌, true, false, ◌||◌, List, [], ◌∷◌, ◌++◌, arith, All, inl, inr, map,
}
use mathlib.Core.List.{append-nil, append_assoc}
use openrusty.Prelude.Text.{starts_with, starts_with_append, is_empty}
use openrusty.Transparent.{
  Bytes, Protocol, Decision, complete, incomplete, h2_prefix, h1_methods, classify, got, settled,
  detect_from, detect,
}
use openrusty.Transparent.Prefixes.{alike_of_prefixes, starts_with_more, starts_with_less}
use openrusty.Transparent.Classify.{
  token, is_h1, may_grow, classify_lem, is_h1_more, may_grow_less, no_h1, h2-Apart,
}

-- A token in front of more bytes is there already, or has begun.
is_h1_open :
    (ms : List Bytes) (buf e : Bytes)
    → is_h1 ms (buf ++ e) ≡ true
    → (is_h1 ms buf || may_grow ms buf) ≡ true
is_h1_open [] buf e h = cc
is_h1_open (m ∷ ms) buf e h = ground (
  arith,
  starts_with_append buf e,
  alike_of_prefixes (buf ++ e) buf (token m),
  is_h1_open ms buf e,
)

-- Once the verdict is made, no further byte changes it.
pub classify_stable :
    (buf e : Bytes) (p : Protocol) → classify buf ≡ complete p → classify (buf ++ e) ≡ complete p
classify_stable buf e p h = ground (
  arith,
  h,
  classify_lem buf,
  classify_lem (buf ++ e),
  starts_with_more buf e h2_prefix,
  starts_with_less h2_prefix buf e,
  starts_with_append buf e,
  alike_of_prefixes (buf ++ e) buf h2_prefix,
  is_h1_more h1_methods buf e,
  is_h1_open h1_methods buf e,
  may_grow_less h1_methods buf e,
  preface_first,
)
  where
    preface_first : starts_with (buf ++ e) h2_prefix ≡ true → is_h1 h1_methods (buf ++ e) ≡ false
    preface_first k = no_h1 (buf ++ e) h2_prefix h1_methods k h2-Apart

-- The protocol that a verdict stands for when the time is up.
abbrev pub verdict : Decision → Protocol
verdict (complete p) = p
verdict incomplete = Protocol.opaque

abbrev pub join : List Bytes → Bytes
join [] = []
join (c ∷ cs) = c ++ join cs

abbrev pub IsFull : List Bytes → Type 0
IsFull chunks = All (λ c. is_empty c ≡ false) chunks

pub Decision-cases : (d : Decision) → (d ≡ incomplete) ⊎ ((p : Protocol) × (d ≡ complete p))
Decision-cases incomplete = inl refl
Decision-cases (complete p) = inr (p, refl)

detect_from_lem :
    (chunks : List Bytes) (buf : Bytes)
    → IsFull chunks
    → classify buf ≡ incomplete
    → (prefix : Bytes) × (left : List Bytes) × (detect_from buf (map got chunks)
        ≡ settled (verdict (classify (buf ++ join chunks))) prefix (map got left))
      × (prefix ++ join left ≡ buf ++ join chunks)
unfolding detect_from
detect_from_lem [] buf full open_still = (
  buf,
  [],
  ap (λ x. settled (verdict x) buf []) (sym (ap classify (append-nil buf) ∙ open_still)),
  refl,
)
detect_from_lem (c ∷ cs) buf full open_still = elim (Decision-cases (classify (buf ++ c))) [
  | inl more ↦
      let (prefix, left, found, split) = detect_from_lem cs (buf ++ c) full.1 more in
      (
        prefix,
        left,
        ground (arith, full.0, more, found, append_assoc buf c (join cs)),
        split ∙ append_assoc buf c (join cs),
      )
  | inr (p, done) ↦ (
    buf ++ c,
    cs,
    ground (
      arith,
      full.0,
      done,
      classify_stable (buf ++ c) (join cs) p done,
      append_assoc buf c (join cs),
    ),
    append_assoc buf c (join cs),
  )
]

-- On any reads without an end or an error, `detect` settles on the protocol that `classify` gives for all
-- bytes at once, opaque while that is incomplete, and the prefix that it hands on followed by the reads
-- that it leaves in the stream are those bytes: how they were cut into reads does not matter.
pub detect_lem :
    (chunks : List Bytes)
    → IsFull chunks
    → (prefix : Bytes) × (left : List Bytes) × (detect (map got chunks)
        ≡ settled (verdict (classify (join chunks))) prefix (map got left))
      × (prefix ++ join left ≡ join chunks)
unfolding detect classify starts_with
detect_lem chunks full = detect_from_lem chunks [] full no_bytes
  where
    no_bytes : classify [] ≡ incomplete
    no_bytes = refl
