-- ===== src/Routing.antt =====
-- crates/openrusty-server/src/pipeline/mod.rs: the route of a request, `match_route` and the host that
-- it matches by, with `RouteConfig` of crates/openrusty-core/src/config.rs. A header is a name and a
-- value; texts are lists of code points.
pub mod Precedence
pub mod Class
pub mod Indexed
pub mod Best
pub mod Host
use openrusty.Prelude.{
  is_some, ℕ, zero, suc, ◌+◌, Bool, true, false, not, ◌&&◌, ◌||◌, Option, none, some, List, [], ◌∷◌,
  ◌++◌, leb, ◌==◌, if◌then◌else◌, select, list_beq, nat_eq,
}
use openrusty.Prelude.Text.{
  Text, trim, is_empty, is_digit, lowercase, eq_ignore_case, starts_with, strip_prefix, byte_len,
  every, some_of,
}

pub record RouteConfig : Type 0 where
  pub path_prefix : Text
  pub host : Option Text
  pub exact : Bool
  pub upstream : Text
  pub timeout_ms : ℕ

unfoldable pub host_matches : Option Text → Option Text → Bool
host_matches none req_host = true
host_matches (some r) none = false
host_matches (some r) (some h) = eq_ignore_case r h

-- A route with its index.
abbrev pub Candidate : Type 0
Candidate = ℕ × RouteConfig

-- The variable `exact` after one candidate: the first exact hit stays.
abbrev pub next_exact : Text → Candidate → Option ℕ → Option ℕ
next_exact path (i, r) (some found) = some found
next_exact path (i, r) none = if r.exact && list_beq r.path_prefix path then some i else none

-- The variable `best_prefix` after a candidate whose prefix fits.
abbrev pub longer : ℕ → ℕ → Option (ℕ × ℕ) → Option (ℕ × ℕ)
longer i len none = some (i, len)
longer i len (some (j, best)) = if leb len best then some (j, best) else some (i, len)

abbrev pub next_best : Text → Candidate → Option (ℕ × ℕ) → Option (ℕ × ℕ)
next_best path (i, r) best =
    if not r.exact && (list_beq path r.path_prefix || starts_with path r.path_prefix)
    then longer i (byte_len r.path_prefix) best
    else best

-- The loop of `path_in_class` and what follows it.
unfoldable pub class_loop : List Candidate → Text → Option ℕ → Option (ℕ × ℕ) → Option ℕ
class_loop [] path (some i) best = some i
class_loop [] path none (some (i, len)) = some i
class_loop [] path none none = none
class_loop (c ∷ cands) path exact best =
    class_loop cands path (next_exact path c exact) (next_best path c best)

unfoldable pub path_in_class : List Candidate → Text → Option ℕ
unfolding class_loop
path_in_class cands path = class_loop cands path none none

-- `iter().enumerate()`, from an index.
abbrev pub enumerate : ℕ → List RouteConfig → List Candidate
enumerate i [] = []
enumerate i (r ∷ rs) = (i, r) ∷ enumerate (suc i) rs

abbrev pub in_host_class : Option Text → Candidate → Bool
in_host_class host (i, r) = is_some r.host && host_matches r.host host

abbrev pub in_any_class : Candidate → Bool
in_any_class (i, r) = not (is_some r.host)

unfoldable pub match_route : List RouteConfig → Option Text → Text → Option ℕ
unfolding path_in_class host_matches
match_route routes host path =
    elim (path_in_class (select (in_host_class host) (enumerate 0 routes)) path) [
      | some i ↦ some i
      | none ↦ path_in_class (select in_any_class (enumerate 0 routes)) path
    ]

abbrev pub Header : Type 0
Header = Text × Text

-- The name "host".
abbrev pub host_name : Text
host_name = b'h' ∷ b'o' ∷ b's' ∷ b't' ∷ []

abbrev pub is_host : Header → Bool
is_host (k, v) = eq_ignore_case k host_name

unfoldable pub fold_h2_authority : List Header → Option Text → List Header
fold_h2_authority headers none = headers
fold_h2_authority headers (some authority) =
    if some_of is_host headers then headers else headers ++ (host_name, authority) ∷ []

-- The value of the first header that passes a test.
unfoldable pub find_header : (Header → Bool) → List Header → Option Text
find_header p [] = none
find_header p ((k, v) ∷ hs) = if p (k, v) then some v else find_header p hs

-- `split(c).next()`: the text before the first `c`, or all of it.
unfoldable pub before_first : ℕ → Text → Text
before_first c [] = []
before_first c (x ∷ xs) = if x == c then [] else x ∷ before_first c xs

-- `rsplit_once(c)`: the texts before and after the last `c`.
unfoldable pub rsplit_once : ℕ → Text → Option (Text × Text)
rsplit_once c [] = none
rsplit_once c (x ∷ xs) = elim (rsplit_once c xs) [
  | some (h, t) ↦ some (x ∷ h, t)
  | none ↦ if x == c then some ([], xs) else none
]

-- The host of a `Host` value that is not empty, less the port.
unfoldable pub bare_host : Text → Text
unfolding strip_prefix before_first rsplit_once
bare_host raw = elim (strip_prefix raw (b'[' ∷ [])) [
  | some rest ↦ before_first b']' rest
  | none ↦ elim (rsplit_once b':' raw) [
    | some (h, port) ↦ if every is_digit port then h else raw
    | none ↦ raw
  ]
]

unfoldable pub request_host : List Header → Option Text
unfolding find_header trim bare_host
request_host headers = elim (find_header is_host headers) [
  | none ↦ none
  | some v ↦ let raw = trim v in if is_empty raw then none else some (lowercase (bare_host raw))
]
