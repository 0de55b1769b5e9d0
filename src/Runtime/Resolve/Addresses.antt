-- ===== src/Runtime/Resolve/Addresses.antt =====
-- The peers that the lookup of crates/openrusty-proxy/src/resolve.rs gives an upstream.
use openrusty.Prelude.{
  ◌≡◌, refl, sym, ◌∙◌, ap, Bool, true, false, Option, none, some, List, [], ◌∷◌, ◌++◌, map,
  contains, NoRepeat, if◌then◌else◌, ◌&&◌, ◌||◌, not, arith,
}
use openrusty.Prelude.Text.{Text, is_empty}
use openrusty.Health.Data.{SocketAddr, addr_eq}
use openrusty.Config.Schema.{UpstreamConfig}
use openrusty.Runtime.Resolve.{
  fresh_addrs, merge_resolved, resolve_endpoint, resolve_endpoints, resolve_upstream,
}

-- Addresses that repeat none of those seen, with those seen after them.
abbrev Fresh : List SocketAddr → List SocketAddr × List SocketAddr → Type 0
Fresh seen (found, after) =
    (more : List SocketAddr) → NoRepeat after more → NoRepeat seen (found ++ more)

round-Fresh :
    (a : SocketAddr) (addrs seen : List SocketAddr) (b : Bool)
    → contains seen a ≡ b
    → Fresh seen (fresh_addrs addrs seen)
    → Fresh (a ∷ seen) (fresh_addrs addrs (a ∷ seen))
    → Fresh seen (
        if b
        then fresh_addrs addrs seen
        else (a ∷ (fresh_addrs addrs (a ∷ seen)).0, (fresh_addrs addrs (a ∷ seen)).1))
round-Fresh a addrs seen true e later after = later
round-Fresh a addrs seen false e later after = λ more h. (e, after more h)

fresh_addrs-Fresh : (addrs seen : List SocketAddr) → Fresh seen (fresh_addrs addrs seen)
fresh_addrs-Fresh [] seen = λ more h. h
fresh_addrs-Fresh (a ∷ addrs) seen =
    round-Fresh a addrs seen (contains seen a) refl (fresh_addrs-Fresh addrs seen)
      (fresh_addrs-Fresh addrs (a ∷ seen))

-- Whether an address is kept, or seen then, where the first one was seen or not.
abbrev Kept :
    List SocketAddr → List SocketAddr → SocketAddr → List SocketAddr × List SocketAddr → Type 0
Kept addrs seen a (found, after) =
    (contains found a ≡ (contains addrs a && not (contains seen a)))
    × (contains after a ≡ (contains addrs a || contains seen a))

round_contains :
    (b : SocketAddr) (addrs seen : List SocketAddr) (a : SocketAddr) (there : Bool)
    → contains seen b ≡ there
    → Kept addrs seen a (fresh_addrs addrs seen)
    → Kept addrs (b ∷ seen) a (fresh_addrs addrs (b ∷ seen))
    → Kept (b ∷ addrs) seen a (
        if there
        then fresh_addrs addrs seen
        else (b ∷ (fresh_addrs addrs (b ∷ seen)).0, (fresh_addrs addrs (b ∷ seen)).1))
round_contains b addrs seen a true e later after =
    let same : addr_eq.beq b a ≡ true → contains seen b ≡ contains seen a =
      λ h. ap (contains seen) ((addr_eq.beq_iff b a).0 h) in
    (ground (arith, same), ground (arith, same))
round_contains b addrs seen a false e later after =
    let same : addr_eq.beq b a ≡ true → contains seen b ≡ contains seen a =
      λ h. ap (contains seen) ((addr_eq.beq_iff b a).0 h) in
    (ground (arith, same), ground (arith, same))

fresh_addrs-Kept :
    (addrs seen : List SocketAddr) (a : SocketAddr) → Kept addrs seen a (fresh_addrs addrs seen)
fresh_addrs-Kept [] seen a = (refl, refl)
fresh_addrs-Kept (b ∷ addrs) seen a =
    round_contains b addrs seen a (contains seen b) refl (fresh_addrs-Kept addrs seen a)
      (fresh_addrs-Kept addrs (b ∷ seen) a)

contains-append :
    (xs ys : List SocketAddr) (a : SocketAddr)
    → contains (xs ++ ys) a ≡ (contains xs a || contains ys a)
contains-append [] ys a = refl
contains-append (x ∷ xs) ys a = ground (arith, contains-append xs ys a)

module _ (lookup_host : Text → Option (List SocketAddr)) where
  found-Fresh :
      (endpoint : Text) (seen : List SocketAddr)
      → Fresh seen (resolve_endpoint lookup_host endpoint seen)
  found-Fresh endpoint seen = one (lookup_host endpoint)
    where
      one :
          (found : Option (List SocketAddr))
          → Fresh seen (elim found [ none ↦ ([], seen) | some addrs ↦ fresh_addrs addrs seen ])
      one none = λ more h. h
      one (some addrs) = fresh_addrs-Fresh addrs seen

  resolve_endpoints-NoRepeat :
      (endpoints : List Text) (seen : List SocketAddr)
      → NoRepeat seen (resolve_endpoints lookup_host endpoints seen)
  resolve_endpoints-NoRepeat [] seen = tt
  resolve_endpoints-NoRepeat (endpoint ∷ endpoints) seen =
      found-Fresh endpoint seen _
        (resolve_endpoints-NoRepeat endpoints (resolve_endpoint lookup_host endpoint seen).1)

  -- The addresses of an endpoint, of which a failed lookup has none.
  abbrev pub answers : Text → List SocketAddr
  answers endpoint = elim (lookup_host endpoint) [ none ↦ [] | some addrs ↦ addrs ]

  -- Some endpoint has the address.
  abbrev pub is_answer : List Text → SocketAddr → Bool
  is_answer [] a = false
  is_answer (endpoint ∷ endpoints) a = contains (answers endpoint) a || is_answer endpoints a

  resolve_endpoint-Kept :
      (endpoint : Text) (seen : List SocketAddr) (a : SocketAddr)
      → Kept (answers endpoint) seen a (resolve_endpoint lookup_host endpoint seen)
  resolve_endpoint-Kept endpoint seen a = one (lookup_host endpoint)
    where
      one :
          (found : Option (List SocketAddr))
          → Kept
              (elim found [ none ↦ [] | some addrs ↦ addrs ])
              seen
              a
              (elim found [ none ↦ ([], seen) | some addrs ↦ fresh_addrs addrs seen ])
      one none = (refl, refl)
      one (some addrs) = fresh_addrs-Kept addrs seen a

  contains-resolve_endpoints :
      (endpoints : List Text) (seen : List SocketAddr) (a : SocketAddr)
      → contains (resolve_endpoints lookup_host endpoints seen) a
        ≡ (is_answer endpoints a && not (contains seen a))
  contains-resolve_endpoints [] seen a = refl
  contains-resolve_endpoints (endpoint ∷ endpoints) seen a =
      let run = resolve_endpoint lookup_host endpoint seen in
      let (kept, after) = resolve_endpoint-Kept endpoint seen a in
      contains-append run.0 (resolve_endpoints lookup_host endpoints run.1) a
      ∙ ground (arith, kept, after, contains-resolve_endpoints endpoints run.1 a)

  -- A peer for each address that an endpoint has and no static peer.
  abbrev pub Resolved : UpstreamConfig → UpstreamConfig → Type 0
  Resolved up up' =
      (found : List SocketAddr) × (up'.peers
        ≡ up.peers ++ map (λ addr. record { addr = addr; weight = 1 }) found)
      × NoRepeat (map (λ p. p.addr) up.peers) found
      × ((a : SocketAddr)
          → contains found a
            ≡ (is_answer up.endpoints a && not (contains (map (λ p. p.addr) up.peers) a)))
      × (up'.endpoints ≡ [])

  append_nil {ℓ} : {A : Type ℓ} (xs : List A) → xs ≡ xs ++ []
  append_nil [] = refl
  append_nil (x ∷ xs) = ap (λ ys. x ∷ ys) (append_nil xs)

  Resolved-lem :
      (up : UpstreamConfig) (endpoints : List Text) (resolved : List SocketAddr)
      → up.endpoints ≡ endpoints
      → NoRepeat (map (λ p. p.addr) up.peers) resolved
      → ((a : SocketAddr)
          → contains resolved a
            ≡ (is_answer up.endpoints a && not (contains (map (λ p. p.addr) up.peers) a)))
      → Resolved up (
          if is_empty endpoints
          then up
          else if is_empty resolved
          then record up { endpoints = [] }
          else merge_resolved up resolved)
  Resolved-lem up [] resolved e h all = (
    [],
    append_nil up.peers,
    tt,
    (λ a. sym (ap (λ es. is_answer es a && not (contains (map (λ p. p.addr) up.peers) a)) e)),
    e,
  )
  Resolved-lem up (endpoint ∷ endpoints) [] e h all = ([], append_nil up.peers, tt, all, refl)
  Resolved-lem up (endpoint ∷ endpoints) (a ∷ resolved) e h all = (a ∷ resolved, refl, h, all, refl)

  pub resolve_upstream-Resolved :
      (up : UpstreamConfig) → Resolved up (resolve_upstream lookup_host up)
  unfolding resolve_upstream
  resolve_upstream-Resolved up =
      Resolved-lem up up.endpoints
        (resolve_endpoints lookup_host up.endpoints (map (λ p. p.addr) up.peers)) refl
        (resolve_endpoints-NoRepeat up.endpoints (map (λ p. p.addr) up.peers))
        (λ a. contains-resolve_endpoints up.endpoints (map (λ p. p.addr) up.peers) a)
