-- ===== src/Runtime/Resolve.antt =====
-- crates/openrusty-proxy/src/resolve.rs: the endpoints of the upstreams, looked up when a configuration is
-- applied. The lookup of the system is a parameter: the addresses of an endpoint, or none on an error.
pub mod Addresses
use openrusty.Prelude.{
  ℕ, Bool, true, false, Option, none, some, List, [], ◌∷◌, ◌++◌, map, contains, if◌then◌else◌,
}
use openrusty.Prelude.Text.{Text, is_empty}
use openrusty.Health.Data.{SocketAddr, addr_eq}
use openrusty.Config.Schema.{PeerConfig, UpstreamConfig, Config}

-- `filter(|a| seen.insert(*a))`: the addresses that are new, and those seen then, the latest first.
abbrev pub fresh_addrs : List SocketAddr → List SocketAddr → List SocketAddr × List SocketAddr
fresh_addrs [] seen = ([], seen)
fresh_addrs (a ∷ addrs) seen =
    let later = fresh_addrs addrs seen in
    let after = fresh_addrs addrs (a ∷ seen) in
    if contains seen a then later else (a ∷ after.0, after.1)

abbrev pub merge_resolved : UpstreamConfig → List SocketAddr → UpstreamConfig
merge_resolved cfg resolved = record cfg {
  peers = cfg.peers ++ map (λ addr. record { addr = addr; weight = 1 }) resolved;
  endpoints = [];
}

module _ (lookup_host : Text → Option (List SocketAddr)) where
  abbrev pub resolve_endpoint : Text → List SocketAddr → List SocketAddr × List SocketAddr
  resolve_endpoint endpoint seen = elim (lookup_host endpoint) [
    | none ↦ ([], seen)
    | some addrs ↦ fresh_addrs addrs seen
  ]

  abbrev pub resolve_endpoints : List Text → List SocketAddr → List SocketAddr
  resolve_endpoints [] seen = []
  resolve_endpoints (endpoint ∷ endpoints) seen =
      let found = resolve_endpoint endpoint seen in found.0 ++ resolve_endpoints endpoints found.1

  unfoldable pub resolve_upstream : UpstreamConfig → UpstreamConfig
  resolve_upstream up =
      let resolved = resolve_endpoints up.endpoints (map (λ p. p.addr) up.peers) in
      if is_empty up.endpoints
      then up
      else if is_empty resolved
      then record up { endpoints = [] }
      else merge_resolved up resolved

  unfoldable pub resolve_config : Config → Config
  resolve_config cfg = record cfg { upstreams = map resolve_upstream cfg.upstreams }
