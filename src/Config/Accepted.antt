-- ===== src/Config/Accepted.antt =====
-- Which configurations `validate` of crates/openrusty-core/src/config.rs accepts: the conditions on a
-- section, an upstream and a route, and on all of them together.
use openrusty.Prelude.{
  ◌≡◌, ◌↔◌, ◌⊎◌, refl, ◌<◌, ℕ, Bool, true, false, not, ◌&&◌, Option, none, some, List, [], ◌∷◌,
  ◌==◌, is_some, contains, NoRepeat, map, All, All-mono, ap, sym, ◌∙◌, ◌||◌, list_beq, list_eq,
  nat_eq, pair_eq, arith,
}
use openrusty.Prelude.Text.{Text, codes, trim, is_empty, starts_with, some_of}
use openrusty.Prelude.Result.{ok, refuse, refuse_iff, >>-iff, each_from_iff}
use openrusty.Health.Data.{ActiveHealthConfig}
use openrusty.Routing.{RouteConfig}
use openrusty.Config.Schema.{UpstreamTlsConfig, PeerConfig, UpstreamConfig}
use openrusty.Config.{one_of}
use openrusty.Config.Checks.{
  check_tls, validate_tls, check_active, check_upstream, check_upstreams, check_host, check_route,
  zero_weight, empty_endpoint,
}

-- Text that is more than white space.
abbrev pub Filled : Text → Type 0
Filled t = is_empty (trim t) ≡ false

abbrev pub Rooted : Text → Type 0
Rooted path = starts_with path (codes "/") ≡ true

-- What holds of a section, if there is one.
abbrev pub IfSome {ℓ} : {A : Type ℓ} → (A → Type 0) → Option A → Type 0
IfSome P none = Unit
IfSome P (some a) = P a

pub record ValidTls (tls : UpstreamTlsConfig) : Type 0 where
  pub named : Filled tls.server_name
  pub trusted : (is_some tls.ca_cert ≡ true) ⊎ (tls.insecure_skip_verify ≡ true)
  pub paired : is_some tls.client_cert ≡ is_some tls.client_key

pub record ValidActive (active : ActiveHealthConfig) : Type 0 where
  pub interval : 0 < active.interval_ms
  pub timeout : 0 < active.timeout_ms
  pub unhealthy : 0 < active.unhealthy_threshold
  pub healthy : 0 < active.healthy_threshold
  pub path : Rooted active.path

pub record ValidUpstream (up : UpstreamConfig) : Type 0 where
  pub named : is_empty up.name ≡ false
  pub reachable : (is_empty up.peers ≡ false) ⊎ (is_empty up.endpoints ≡ false)
  pub endpoints : All Filled up.endpoints
  pub weights : All (λ p. 0 < p.weight) up.peers
  pub tls : IfSome ValidTls up.tls
  pub active : IfSome ValidActive up.health.active

pub record ValidRoute (upstreams : List UpstreamConfig) (route : RouteConfig) : Type 0 where
  pub path : Rooted route.path_prefix
  pub host : IfSome Filled route.host
  pub known : contains (map (λ up. up.name) upstreams) route.upstream ≡ true

pub zero_iff : (n : ℕ) → ((n == 0) ≡ false) ↔ (0 < n)
zero_iff n = ground arith

pub not_iff : (b : Bool) → (not b ≡ false) ↔ (b ≡ true)
not_iff b = ground arith

check_tls_iff :
    (name : Text) (tls : Option UpstreamTlsConfig)
    → (check_tls name tls ≡ ok tt) ↔ IfSome ValidTls tls
unfolding validate_tls
check_tls_iff name none = (λ e. tt, λ h. refl)
check_tls_iff name (some tls) =
    let c =
      >>-iff _ _
        (>>-iff _ _ (refuse_iff _ _)
          (refuse_iff (not (is_some tls.ca_cert) && not tls.insecure_skip_verify) _))
        (refuse_iff (one_of (is_some tls.client_cert) (is_some tls.client_key)) _) in
    (
      (λ e.
          let ((a, b), d) = c.0 e in
          record { named = a; trusted = ground arith; paired = ground arith }),
      (λ v. c.1 ((v.named, ground (arith, v.trusted)), ground (arith, v.paired))),
    )

check_active_iff :
    (name : Text) (active : Option ActiveHealthConfig)
    → (check_active name active ≡ ok tt) ↔ IfSome ValidActive active
check_active_iff name none = (λ e. tt, λ h. refl)
check_active_iff name (some active) =
    let c =
      >>-iff _ _
        (>>-iff _ _
          (>>-iff _ _
            (>>-iff _ _ (refuse_iff (active.interval_ms == 0) _)
              (refuse_iff (active.timeout_ms == 0) _))
            (refuse_iff (active.unhealthy_threshold == 0) _))
          (refuse_iff (active.healthy_threshold == 0) _))
        (refuse_iff (not (starts_with active.path (codes "/"))) _) in
    (
      (λ e.
          let ((((i, t), u), h), p) = c.0 e in
          record {
            interval = (zero_iff _).0 i;
            timeout = (zero_iff _).0 t;
            unhealthy = (zero_iff _).0 u;
            healthy = (zero_iff _).0 h;
            path = (not_iff _).0 p;
          }),
      (λ v. c.1 (
        (
          (((zero_iff _).1 v.interval, (zero_iff _).1 v.timeout), (zero_iff _).1 v.unhealthy),
          (zero_iff _).1 v.healthy,
        ),
        (not_iff _).1 v.path,
      )),
    )

reachable_iff : (a b : Bool) → ((a && b) ≡ false) ↔ ((a ≡ false) ⊎ (b ≡ false))
reachable_iff a b = ground arith

check_upstream_iff :
    (seen : List Text) (up : UpstreamConfig)
    → (check_upstream seen up ≡ ok tt) ↔ ((contains seen up.name ≡ false) × ValidUpstream up)
check_upstream_iff seen up =
    let c =
      >>-iff _ _
        (>>-iff _ _
          (>>-iff _ _
            (>>-iff _ _
              (>>-iff _ _
                (>>-iff _ _ (refuse_iff (is_empty up.name) _)
                  (refuse_iff (contains seen up.name) _))
                (refuse_iff (is_empty up.peers && is_empty up.endpoints) _))
              (each_from_iff (λ i ep. refuse (is_empty (trim ep)) (empty_endpoint up.name i)) Filled
                (λ i ep. refuse_iff (is_empty (trim ep)) _) 0 up.endpoints))
            (each_from_iff (λ i (p : PeerConfig). refuse (p.weight == 0) (zero_weight up.name i))
              (λ p. (p.weight == 0) ≡ false) (λ i p. refuse_iff (p.weight == 0) _) 0 up.peers))
          (check_tls_iff up.name up.tls))
        (check_active_iff up.name up.health.active) in
    (
      (λ e.
          let ((((((n, s), r), es), ws), t), a) = c.0 e in
          (
            s,
            record {
              named = n;
              reachable = (reachable_iff _ _).0 r;
              endpoints = es;
              weights = All-mono _ _ (λ p. (zero_iff p.weight).0) up.peers ws;
              tls = t;
              active = a;
            },
          )),
      (λ (s, v). c.1 (
        (
          (
            (((v.named, s), (reachable_iff _ _).1 v.reachable), v.endpoints),
            All-mono _ _ (λ p. (zero_iff p.weight).1) up.peers v.weights,
          ),
          v.tls,
        ),
        v.active,
      )),
    )

pub check_upstreams_iff :
    (seen : List Text) (ups : List UpstreamConfig)
    → (check_upstreams seen ups ≡ ok tt)
      ↔ (NoRepeat seen (map (λ up. up.name) ups) × All ValidUpstream ups)
check_upstreams_iff seen [] = (λ e. (tt, tt), λ h. refl)
check_upstreams_iff seen (up ∷ ups) =
    let c = >>-iff _ _ (check_upstream_iff seen up) (check_upstreams_iff (up.name ∷ seen) ups) in
    (
      (λ e. let ((s, v), (n, vs)) = c.0 e in ((s, n), (v, vs))),
      (λ ((s, n), (v, vs)). c.1 ((s, v), (n, vs))),
    )

check_host_iff : (i : ℕ) (host : Option Text) → (check_host i host ≡ ok tt) ↔ IfSome Filled host
check_host_iff i none = (λ e. tt, λ h. refl)
check_host_iff i (some host) = refuse_iff (is_empty (trim host)) _

known_iff :
    (name : Text) (ups : List UpstreamConfig)
    → some_of (λ u. list_beq u.name name) ups ≡ contains (map (λ up. up.name) ups) name
known_iff name [] = refl
known_iff name (up ∷ ups) = ap (λ b. list_beq up.name name || b) (known_iff name ups)

pub check_route_iff :
    (ups : List UpstreamConfig) (i : ℕ) (route : RouteConfig)
    → (check_route ups i route ≡ ok tt) ↔ ValidRoute ups route
check_route_iff ups i route =
    let c =
      >>-iff _ _
        (>>-iff _ _ (refuse_iff (not (starts_with route.path_prefix (codes "/"))) _)
          (check_host_iff i route.host))
        (refuse_iff (not (some_of (λ u. list_beq u.name route.upstream) ups)) _) in
    (
      (λ e.
          let ((p, h), k) = c.0 e in
          record {
            path = (not_iff _).0 p;
            host = h;
            known = sym (known_iff route.upstream ups) ∙ (not_iff _).0 k;
          }),
      (λ v.
          c.1 (
            ((not_iff _).1 v.path, v.host),
            (not_iff _).1 (known_iff route.upstream ups ∙ v.known),
          )),
    )
