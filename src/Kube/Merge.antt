-- ===== src/Kube/Merge.antt =====
-- `RouteKey`, `Conflict` and `merge` of crates/openrusty-k8s/src/render/mod.rs.
pub mod Distinct
pub mod Labels
use openrusty.Prelude.{
  ℕ, ◌+◌, Bool, true, false, ◌&&◌, ◌||◌, not, Option, none, some, List, [], ◌∷◌, ◌++◌, ◌≡◌, ◌↔◌,
  refl, arith, list_beq, list_beq_iff, list_eq, nat_eq, option_beq, option_beq_iff, bool_beq, Eq,
}
use openrusty.Prelude.Assoc.{get}
use openrusty.Prelude.Text.{Text}
use openrusty.Prelude.Result.{Result, ok, err, ◌>>=◌}
use openrusty.Routing.{RouteConfig}
use openrusty.Kube.Render.{normalized}

pub record RouteKey : Type 0 where
  pub host : Option Text
  pub path_prefix : Text
  pub exact : Bool

abbrev pub key_beq : RouteKey → RouteKey → Bool
key_beq a b =
    option_beq a.host b.host && (list_beq a.path_prefix b.path_prefix && bool_beq a.exact b.exact)

pub key_beq_iff : (a b : RouteKey) → (key_beq a b ≡ true) ↔ (a ≡ b)
key_beq_iff a b =
    ground (arith, option_beq_iff a.host b.host, list_beq_iff a.path_prefix b.path_prefix)

instance abbrev pub key_eq : Eq RouteKey
key_eq = record { beq = key_beq; beq_iff = key_beq_iff }

unfoldable pub key_of : RouteConfig → RouteKey
key_of route = record {
  host = normalized route.host;
  path_prefix = route.path_prefix;
  exact = route.exact;
}

-- The label of a route: the list that it stands in and its index there.
pub data Origin : Type 0 where
  of_static of_rendered : Origin

abbrev pub Label : Type 0
Label = Origin × ℕ

pub record Conflict : Type 0 where
  pub key : RouteKey
  pub a : Label
  pub b : Label

abbrev pub Seen : Type 0
Seen = List (RouteKey × Label)

-- The conflict with the route that claimed a key first, or what comes after the route.
abbrev pub unless_seen :
    RouteKey → Label → Option Label → Result Conflict Seen → Result Conflict Seen
unless_seen key here none rest = rest
unless_seen key here (some there) rest = err (record { key = key; a = there; b = here })

-- The closure `check`, from an index on. The keys of a map do not repeat, so a new one is put in front.
abbrev pub check : Origin → ℕ → List RouteConfig → Seen → Result Conflict Seen
check origin i [] seen = ok seen
check origin i (route ∷ routes) seen =
    unless_seen (key_of route) (origin, i) (get (key_of route) seen)
      (check origin (i + 1) routes ((key_of route, (origin, i)) ∷ seen))

unfoldable pub merge : List RouteConfig → List RouteConfig → Result Conflict (List RouteConfig)
merge static_routes rendered = check Origin.of_static 0 static_routes [] >>= λ seen.
    check Origin.of_rendered 0 rendered seen >>= λ _. ok (static_routes ++ rendered)
