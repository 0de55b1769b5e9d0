-- ===== src/Runtime/Sound.antt =====
-- What a published runtime holds after `apply_runtime` of crates/openrusty-server/src/state.rs.
use openrusty.Prelude.{
  ◌≡◌, refl, ap, ap₂, ◌∙◌, ℕ, Bool, true, false, ◌||◌, Option, none, some, List, [], ◌∷◌, map,
  contains, is_some, All, All-mono, String, list_eq, nat_eq, list_beq, arith, if◌then◌else◌,
}
use openrusty.Prelude.Assoc.{get, get-insert}
use openrusty.Prelude.Text.{Text, is_empty}
use openrusty.Health.{SocketAddr}
use openrusty.Picker.{Peer}
use openrusty.Routing.{RouteConfig}
use openrusty.Config.Schema.{UpstreamConfig, Config}
use openrusty.Runtime.Pool.{UpstreamTls, Upstream, from_config}
use openrusty.Runtime.Resolve.{merge_resolved, resolve_upstream, resolve_config}
use openrusty.Runtime.{
  RuntimeSnapshot, AppState, Plans, Built, client_for, clients_for, add_upstream, add_upstreams,
  apply_runtime,
}

-- The names of the upstreams of a configuration.
abbrev pub names_of : List UpstreamConfig → List Text
names_of ups = map (λ u. u.name) ups

-- Every route of a runtime leads to one of its upstreams.
abbrev pub Leads : {M : Type 0} → RuntimeSnapshot M → Type 0
Leads runtime = All (λ route. is_some (get route.upstream runtime.upstreams) ≡ true) runtime.routes

-- Every route names one of the upstreams.
abbrev pub Known : List UpstreamConfig → List RouteConfig → Type 0
Known ups routes = All (λ route. contains (names_of ups) route.upstream ≡ true) routes

is_some_if :
    {A : Type 0} (b : Bool) (a : A) (o : Option A)
    → is_some (if b then some a else o) ≡ (b || is_some o)
is_some_if true a o = refl
is_some_if false a o = refl

clients_for-upstreams :
    {M : Type 0} (up : Upstream M) (tls : Option (UpstreamTls M)) (peers : List Peer) (b : Built M)
    → up.tls ≡ tls
    → (clients_for up peers b).upstreams ≡ b.upstreams
clients_for-upstreams up tls [] b e = refl
clients_for-upstreams up tls (p ∷ peers) b e =
    clients_for-upstreams up tls peers (client_for up up.tls p b) e ∙ one up.tls
  where
    one : (tls : Option _) → (client_for up tls p b).upstreams ≡ b.upstreams
    one none = refl
    one (some tls) = refl

module _ {M : Type 0} (string_of : Text → String) (show : SocketAddr → String) where
  -- An upstream more.
  get-add_upstream :
      (up : Upstream M) (b : Built M) (name : Text)
      → is_some (get name (add_upstream string_of show up b).upstreams)
        ≡ (list_beq up.name name || is_some (get name b.upstreams))
  get-add_upstream up b name =
      ap is_some (get-insert up.name name _ _)
      ∙ is_some_if (list_beq up.name name) _ _
      ∙ ap (λ ups. list_beq up.name name || is_some (get name ups))
          (clients_for-upstreams up up.tls up.peers _ refl)

  get-add_upstreams :
      (plans : Plans M) (ups : List UpstreamConfig) (b : Built M) (name : Text)
      → is_some (get name (add_upstreams string_of show plans ups b).upstreams)
        ≡ (contains (names_of ups) name || is_some (get name b.upstreams))
  unfolding from_config
  get-add_upstreams plans [] b name = refl
  get-add_upstreams plans (uc ∷ ups) b name =
      get-add_upstreams plans ups
        (add_upstream string_of show (from_config uc (get uc.name plans)) b) name
      ∙ ap (λ x. contains (names_of ups) name || x)
          (get-add_upstream (from_config uc (get uc.name plans)) b name)
      ∙ ground arith

  -- Publishing a configuration whose routes name its upstreams.
  pub apply_runtime-Leads :
      {K : Type 0} (state : AppState M K) (cfg : Config) (generation : ℕ) (plans : Plans M)
      → Known cfg.upstreams cfg.routes
      → Leads (apply_runtime string_of show state cfg generation plans).runtime
  unfolding apply_runtime get
  apply_runtime-Leads state cfg generation plans known =
      All-mono _ _
        (λ route h. get-add_upstreams plans cfg.upstreams _ route.upstream ∙ ap (λ b. b || false) h)
        cfg.routes known

name_if :
    (b c : Bool) (x y z : UpstreamConfig) {name : Text}
    → x.name ≡ name
    → y.name ≡ name
    → z.name ≡ name
    → (if b then x else if c then y else z).name ≡ name
name_if true c x y z e f g = e
name_if false true x y z e f g = f
name_if false false x y z e f g = g

-- The lookup of endpoints leaves the names and the routes as they are.
names_of-map :
    (lookup_host : Text → Option (List SocketAddr)) (ups : List UpstreamConfig)
    → names_of (map (resolve_upstream lookup_host) ups) ≡ names_of ups
unfolding resolve_upstream
names_of-map lookup_host [] = refl
names_of-map lookup_host (u ∷ ups) =
    ap₂ ◌∷◌ (name_if (is_empty u.endpoints) (is_empty _) u _ (merge_resolved u _) refl refl refl)
      (names_of-map lookup_host ups)

pub Known-resolved :
    (lookup_host : Text → Option (List SocketAddr)) (cfg : Config)
    → Known cfg.upstreams cfg.routes
    → Known (resolve_config lookup_host cfg).upstreams (resolve_config lookup_host cfg).routes
unfolding resolve_config
Known-resolved lookup_host cfg known =
    All-mono _ _
      (λ route h.
        ap (λ names. contains names route.upstream) (names_of-map lookup_host cfg.upstreams) ∙ h)
      cfg.routes known
