-- ===== src/Routing/Host.antt =====
-- The host of a request in crates/openrusty-server/src/pipeline/mod.rs: which header it is read from,
-- and that neither case nor port counts.
use openrusty.Prelude.{
  ℕ, ◌≡◌, ap₂, refl, Bool, true, false, none, some, List, [], ◌∷◌, ◌++◌, if◌then◌else◌, arith,
  nat_eq, contains,
}
use openrusty.Prelude.Text.{
  Text, trim, is_empty, is_digit, lowercase, eq_ignore_case, to_lower, to_lower_idem, strip_prefix,
  every, some_of,
}
use openrusty.Routing.{
  Header, is_host, host_name, find_header, fold_h2_authority, before_first, rsplit_once, bare_host,
  request_host, host_matches,
}

rsplit_absent : (c : ℕ) (t : Text) → contains t c ≡ false → rsplit_once c t ≡ none
unfolding rsplit_once
rsplit_absent c [] h = refl
rsplit_absent c (x ∷ xs) h = ground (arith, rsplit_absent c xs)

rsplit_last : (c : ℕ) (h t : Text) → contains t c ≡ false → rsplit_once c (h ++ c ∷ t) ≡ some (h, t)
unfolding rsplit_once
rsplit_last c [] t absent = ground (arith, rsplit_absent c t)
rsplit_last c (x ∷ h) t absent = ground (arith, rsplit_last c h t)

digits_no_colon : (port : Text) → every is_digit port ≡ true → contains port b':' ≡ false
digits_no_colon [] h = refl
digits_no_colon (c ∷ port) h = ground (arith, digits_no_colon port)

before_first-append :
    (c : ℕ) (h rest : Text) → contains h c ≡ false → before_first c (h ++ c ∷ rest) ≡ h
unfolding before_first
before_first-append c [] rest absent = ground arith
before_first-append c (x ∷ h) rest absent = ground (arith, before_first-append c h rest)

lowercase_idem : (t : Text) → lowercase (lowercase t) ≡ lowercase t
lowercase_idem [] = refl
lowercase_idem (c ∷ t) = ap₂ (λ x y. x ∷ y) (to_lower_idem c) (lowercase_idem t)

-- A host name, then a colon and digits.
bare_host-port :
    (h port : Text)
    → every is_digit port ≡ true
    → strip_prefix (h ++ b':' ∷ port) (b'[' ∷ []) ≡ none
    → bare_host (h ++ b':' ∷ port) ≡ h
unfolding bare_host
bare_host-port h port digits plain =
    ground (arith, rsplit_last b':' h port (digits_no_colon port digits))

-- An address in brackets, then anything.
bare_host-brackets :
    (h rest : Text) → contains h b']' ≡ false → bare_host (b'[' ∷ h ++ b']' ∷ rest) ≡ h
unfolding bare_host
bare_host-brackets h rest absent = before_first-append b']' h rest absent

-- The two forms of a `Host` value with a port: a name that does not start with a bracket, or an
-- address in brackets.
pub data Names : Text → Text → Type 0 where
  name :
      (h port : Text)
      → every is_digit port ≡ true
      → strip_prefix (h ++ b':' ∷ port) (b'[' ∷ []) ≡ none
      → Names (h ++ b':' ∷ port) h
  address : (h rest : Text) → contains h b']' ≡ false → Names (b'[' ∷ h ++ b']' ∷ rest) h

not_empty : (h rest : Text) (c : ℕ) → is_empty (h ++ c ∷ rest) ≡ false
not_empty [] rest c = refl
not_empty (x ∷ h) rest c = refl

Names-bare : (raw h : Text) → Names raw h → (bare_host raw ≡ h) × (is_empty raw ≡ false)
Names-bare raw h (name g port digits plain) =
    (bare_host-port g port digits plain, not_empty g port b':')
Names-bare raw h (address g rest absent) = (bare_host-brackets g rest absent, refl)

-- A route for a host matches a request whose `Host` value names that host, with whatever port and in
-- whatever case, and no other.
pub host_matches-request_host :
    (headers : List Header) (v h r : Text)
    → find_header is_host headers ≡ some v
    → Names (trim v) h
    → host_matches (some r) (request_host headers) ≡ eq_ignore_case r h
unfolding host_matches request_host
host_matches-request_host headers v h r found named =
    let (bare, full) = Names-bare (trim v) h named in
    ground (arith, found, bare, full, lowercase_idem h)

find_header-append :
    (p : Header → Bool) (hs : List Header) (k v : Text)
    → p (k, v) ≡ true
    → find_header p (hs ++ (k, v) ∷ []) ≡ (if some_of p hs then find_header p hs else some v)
unfolding find_header
find_header-append p [] k v h = ground arith
find_header-append p (x ∷ hs) k v h = ground (arith, find_header-append p hs k v)

-- An `:authority` counts as the host exactly if there is no header for it.
pub request_host-fold_h2_authority :
    (headers : List Header) (authority : Text)
    → request_host (fold_h2_authority headers (some authority)) ≡ (
        if some_of is_host headers
        then request_host headers
        else request_host ((host_name, authority) ∷ []))
unfolding fold_h2_authority request_host to_lower
request_host-fold_h2_authority headers authority =
    ground (arith, find_header-append is_host headers host_name authority refl)
