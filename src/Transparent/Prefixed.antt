-- ===== src/Transparent/Prefixed.antt =====
-- crates/openrusty-server/src/transparent/prefixed.rs: sniffed bytes put back in front of a stream. The
-- stream inside is any state with a read of at most so many bytes.
use openrusty.Prelude.{
  subst, ℕ, zero, suc, ◌≡◌, ◌+◌, ◌-◌, min, List, [], ◌∷◌, ◌++◌, ltb, if◌then◌else◌, length, drop,
  drop_end, All, ◌≤◌, refl, ap, sym, ◌∙◌, arith, Bool-cases, inl, inr,
}
use mathlib.Core.List.{append_assoc}
use openrusty.Transparent.{Bytes}

pub record PrefixedStream (S : Type 0) : Type 0 where
  pub prefix : Bytes
  pub pos : ℕ
  pub inner : S

abbrev pub new : {S : Type 0} → Bytes → S → PrefixedStream S
new prefix inner = record { prefix = prefix; pos = 0; inner = inner }

abbrev pub take : ℕ → Bytes → Bytes
take zero xs = []
take (suc n) [] = []
take (suc n) (x ∷ xs) = x ∷ take n xs

-- `poll_read` with so much room in the buffer: the bytes put into it, and the stream behind them.
unfoldable pub poll_read :
    {S : Type 0} → (ℕ → S → Bytes × S) → ℕ → PrefixedStream S → Bytes × PrefixedStream S
poll_read read room s =
    let n = min room (length s.prefix - s.pos) in
    let (out, inner) = read room s.inner in
    if ltb s.pos (length s.prefix)
    then (
      take n (drop s.pos s.prefix),
      record { prefix = s.prefix; pos = s.pos + n; inner = s.inner },
    )
    else (out, record { prefix = s.prefix; pos = s.pos; inner = inner })

-- Reads with the room that each gives.
abbrev pub polls : {S : Type 0} → (ℕ → S → Bytes × S) → List ℕ → S → Bytes × S
polls read [] s = ([], s)
polls read (room ∷ rooms) s =
    let (out, t) = read room s in let (rest, u) = polls read rooms t in (out ++ rest, u)

-- A read takes bytes off the front of what the stream holds, `holds`.
abbrev pub Faithful : {S : Type 0} → (ℕ → S → Bytes × S) → (S → Bytes) → Type 0
Faithful {S} read holds = (room : ℕ) (s : S) → (read room s).0 ++ holds (read room s).1 ≡ holds s

abbrev pub held : {S : Type 0} → (S → Bytes) → PrefixedStream S → Bytes
held holds s = drop s.pos s.prefix ++ holds s.inner

take-drop-zero : (n : ℕ) (xs : Bytes) → take n xs ++ drop n xs ≡ xs
take-drop-zero zero xs = refl
take-drop-zero (suc n) [] = refl
take-drop-zero (suc n) (x ∷ xs) = ap (λ ys. x ∷ ys) (take-drop-zero n xs)

take-drop : (n m : ℕ) (xs : Bytes) → take n (drop m xs) ++ drop (m + n) xs ≡ drop m xs
take-drop n zero xs = ground (arith, take-drop-zero n xs)
take-drop n (suc m) [] = take_nothing n ∙ drop_end {A = ℕ} [] (suc m + n) (ground arith)
  where
    take_nothing : (k : ℕ) → take k [] ++ drop (suc m + n) [] ≡ drop (suc m + n) []
    take_nothing zero = refl
    take_nothing (suc k) = refl
take-drop n (suc m) (x ∷ xs) =
    subst (λ k. take n (drop m xs) ++ drop k (x ∷ xs) ≡ drop m xs) (step m n) (take-drop n m xs)
  where
    step : (m n : ℕ) → suc (m + n) ≡ suc m + n
    step m n = omega arith

module _ {S : Type 0} (read : ℕ → S → Bytes × S) (holds : S → Bytes)
    (ok : Faithful read holds) where
  poll_read-held :
      (room : ℕ) (s : PrefixedStream S)
      → (poll_read read room s).0 ++ held holds (poll_read read room s).1 ≡ held holds s
  unfolding poll_read
  poll_read-held room s = elim (Bool-cases (ltb s.pos (length s.prefix))) [
    | inl more ↦ ground (
      arith,
      take-drop (min room (length s.prefix - s.pos)) s.pos s.prefix,
      append_assoc (take (min room (length s.prefix - s.pos)) (drop s.pos s.prefix))
          (drop (s.pos + min room (length s.prefix - s.pos)) s.prefix) (holds s.inner),
    )
    | inr done ↦ ground (arith, drop_end s.prefix s.pos, ok room s.inner)
  ]

  polls-held :
      (rooms : List ℕ) (s : PrefixedStream S)
      → (polls (poll_read read) rooms s).0 ++ held holds (polls (poll_read read) rooms s).1
        ≡ held holds s
  polls-held [] s = refl
  polls-held (room ∷ rooms) s =
      let (out, t) = poll_read read room s in
      let (rest, u) = polls (poll_read read) rooms t in
      append_assoc out rest (held holds u)
      ∙ ap (λ x. out ++ x) (polls-held rooms t)
      ∙ poll_read-held room s

  polls_drain :
      (rooms : List ℕ) (s : PrefixedStream S)
      → All (λ room. 1 ≤ room) rooms
      → length s.prefix ≤ s.pos + length rooms
      → drop (polls (poll_read read) rooms s).1.pos (polls (poll_read read) rooms s).1.prefix ≡ []
  unfolding poll_read
  polls_drain [] s full enough = drop_end s.prefix s.pos (ground arith)
  polls_drain (room ∷ rooms) s full enough =
      polls_drain rooms (poll_read read room s).1 full.1 (ground (arith, full.0))

-- Where every read of the inner stream takes bytes off the front of what it holds, reads of a stream with a
-- prefix in front, at least as many as the prefix is long and each with room for a byte, hand out the whole
-- prefix and behind it what the inner stream gave up, with nothing lost or out of order.
pub polls-poll_read :
    {S : Type 0} (read : ℕ → S → Bytes × S) (holds : S → Bytes)
    → Faithful read holds
    → (rooms : List ℕ) (prefix : Bytes) (inner : S) → All (λ room. 1 ≤ room) rooms
    → length prefix ≤ length rooms
    → let (out, s) = polls (poll_read read) rooms (new prefix inner) in
      out ++ holds s.inner ≡ prefix ++ holds inner
polls-poll_read read holds ok rooms prefix inner full enough =
    let (out, s) = polls (poll_read read) rooms (new prefix inner) in
    ap (λ x. out ++ (x ++ holds s.inner))
      (sym (polls_drain read holds ok rooms (new prefix inner) full (ground arith)))
    ∙ polls-held read holds ok rooms (new prefix inner)
