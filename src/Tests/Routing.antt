-- ===== src/Tests/Routing.antt =====
-- The choice of a route at concrete inputs.
use openrusty.Prelude.{
  ℕ, ◌≡◌, refl, Bool, true, false, Option, none, some, List, [], ◌∷◌, arith, get_elem?,
  if◌then◌else◌,
}
use openrusty.Prelude.Text.{Text, codes, to_lower, starts_with, eq_ignore_case}
use openrusty.Routing.{
  RouteConfig, Header, match_route, host_matches, request_host, fold_h2_authority, host_name,
}
use openrusty.Routing.Best.{Best, match_route-Best}
use openrusty.Routing.Host.{Names, host_matches-request_host}

abbrev route : Option Text → Bool → Text → RouteConfig
route host exact path = record {
  path_prefix = path;
  host = host;
  exact = exact;
  upstream = codes "api";
  timeout_ms = 0;
}

abbrev any_host : Option Text
any_host = none

-- A catch-all, a long prefix of it, and two routes for a host.
abbrev routes : List RouteConfig
routes =
    route any_host false (codes "/")
    ∷ route any_host false (codes "/api/v1")
    ∷ route (some (codes "Shop.io")) false (codes "/api")
    ∷ route (some (codes "shop.io")) true (codes "/api/v1")
    ∷ []

chosen : match_route routes (some (codes "shop.io")) (codes "/api/v1") ≡ some 3
unfolding match_route to_lower starts_with openrusty.Prelude.Text.byte_len
chosen = refl

match_route-Best_example :
    Best routes
      (some (codes "shop.io"))
      (codes "/api/v1")
      (match_route routes (some (codes "shop.io")) (codes "/api/v1"))
match_route-Best_example = match_route-Best routes (some (codes "shop.io")) (codes "/api/v1")

abbrev headers : List Header
headers = (codes "accept", codes "*") ∷ (codes "Host", codes " SHOP.io:8443") ∷ []

host_matches-request_host_example :
    host_matches (some (codes "Shop.io")) (request_host headers) ≡ true
unfolding to_lower openrusty.Routing.find_header openrusty.Prelude.Text.trim
    openrusty.Prelude.Text.strip_prefix
host_matches-request_host_example =
    host_matches-request_host headers (codes " SHOP.io:8443") (codes "SHOP.io") (codes "Shop.io")
      refl (Names.name (codes "SHOP.io") (codes "8443") refl refl)
