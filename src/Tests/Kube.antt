-- ===== src/Tests/Kube.antt =====
-- Tests of the rendering of the cluster, and the witnesses of its theorems.
use openrusty.Prelude.{
  ◌≡◌, ◌↔◌, refl, ℕ, ◌<◌, false, none, some, [], ◌∷◌, ◌++◌, map, All, NoRepeat, list_eq, nat_eq,
  pair_eq,
}
use openrusty.Prelude.Text.{Text, codes, starts_with, trim, trim_start, is_whitespace, to_lower}
use openrusty.Prelude.Assoc.{get}
use openrusty.Prelude.Result.{Result, ok, err}
use openrusty.Routing.{RouteConfig}
use openrusty.Kube.{ObjectMeta, PathType, IngressBackend, Ingress, Secret, EventType, ingress_meta}
use openrusty.Kube.Snapshot.{Snapshot, replace_from_list}
use openrusty.Kube.Snapshot.Fold.{
  apply_events, last_word, last_listed, or_else, get-apply_events-replace_from_list,
}
use openrusty.Kube.Backends.{upstream_name, backend_target, digits}
use openrusty.Kube.Render.{normalize_host, of_class, owned, render_routes, render_upstreams}
use openrusty.Kube.Render.References.{Agree, render_upstreams_complete}
use openrusty.Kube.Merge.{key_of, key_eq, Origin, Conflict, merge}
use openrusty.Kube.Merge.Distinct.{merge_iff}
use openrusty.Kube.Merge.Labels.{key_at, merge_conflict}
use openrusty.Kube.Tls.{decode_field, decode_tls_secret, tls_type, render_tls}
use openrusty.Kube.Tls.Served.{IngressServed, render_tls-served}

abbrev meta_of : Text → ObjectMeta
meta_of name = record { name = name; namespace = codes "web"; resource_version = codes "7" }

abbrev backend_to : ℕ → IngressBackend
backend_to port = record {
  service =
      some
        (record { name = codes "svc"; port = some (record { name = none; number = some port }) });
}

-- An Ingress of the class `gw` with one path and one host with TLS.
abbrev pub shop : Ingress
shop = record {
  metadata = meta_of (codes "shop");
  spec = record {
    ingress_class_name = some (codes "gw");
    default_backend = none;
    tls = record { hosts = codes "Shop.io" ∷ []; secret_name = some (codes "pem") } ∷ [];
    rules =
        record {
          host = some (codes "Shop.io");
          http = some (record {
            paths =
                record { path = codes "/a"; path_type = PathType.prefix; backend = backend_to 80 }
                ∷ [];
          });
        }
        ∷ [];
  };
}

abbrev pub pem : Secret
pem = record {
  metadata = meta_of (codes "pem");
  type_of = some tls_type;
  entries = (codes "tls.crt", codes "C") ∷ (codes "tls.key", codes "K") ∷ [];
}

abbrev pub shops : Snapshot Ingress
shops = record { items = ((codes "web", codes "shop"), shop) ∷ []; resource_version = codes "7" }

abbrev pub pems : Snapshot Secret
pems = record { items = ((codes "web", codes "pem"), pem) ∷ []; resource_version = codes "7" }

abbrev pub gw : Text
gw = codes "gw"

abbrev pub shop_route : RouteConfig
shop_route = record {
  path_prefix = codes "/a";
  host = some (codes "shop.io");
  exact = false;
  upstream = codes "ing-web-svc-80";
  timeout_ms = 0;
}

pub renders : render_routes shops gw ≡ ok (shop_route ∷ [])
unfolding render_routes owned of_class backend_target upstream_name digits normalize_host
    starts_with trim trim_start is_whitespace to_lower
renders = refl

-- Services of two namespaces that come to the same name.
collides : upstream_name (codes "a-b") (codes "c") 80 ≡ upstream_name (codes "a") (codes "b-c") 80
unfolding upstream_name
collides = refl

get-apply_events-replace_from_list_example :
    get
      (codes "web", codes "shop")
      (apply_events
        (replace_from_list (shop ∷ []) (codes "7"))
        (record { event_type = EventType.deleted; object = shop } ∷ [])).items
    ≡ or_else
        (last_word
          (codes "web", codes "shop")
          (record { event_type = EventType.deleted; object = shop } ∷ []))
        (last_listed (codes "web", codes "shop") (shop ∷ []))
get-apply_events-replace_from_list_example =
    get-apply_events-replace_from_list (codes "web", codes "shop") (shop ∷ []) (codes "7")
      (record { event_type = EventType.deleted; object = shop } ∷ [])

render_upstreams_complete_example : Agree (shop_route ∷ []) (render_upstreams shops gw)
render_upstreams_complete_example = render_upstreams_complete shops gw (shop_route ∷ []) renders

merge_iff_example : (merge (shop_route ∷ []) (shop_route ∷ []) ≡ ok (shop_route ∷ [])) ↔ (
    (shop_route ∷ [] ≡ (shop_route ∷ []) ++ (shop_route ∷ []))
    × NoRepeat [] (map key_of (shop_route ∷ [])))
merge_iff_example = merge_iff (shop_route ∷ []) (shop_route ∷ []) (shop_route ∷ [])

abbrev clash : Conflict
clash = record {
  key = record { host = some (codes "shop.io"); path_prefix = codes "/a"; exact = false };
  a = (Origin.of_static, 0);
  b = (Origin.of_rendered, 0);
}

-- The same route on both sides, with the host in upper case on one.
clashes :
    merge (record shop_route { host = some (codes "SHOP.io") } ∷ []) (shop_route ∷ []) ≡ err clash
unfolding merge key_of normalize_host trim trim_start is_whitespace to_lower get
clashes = refl

merge_conflict_example :
    (key_at
        (record shop_route { host = some (codes "SHOP.io") } ∷ [])
        (shop_route ∷ [])
        (Origin.of_static, 0)
      ≡ some clash.key)
    × (key_at
          (record shop_route { host = some (codes "SHOP.io") } ∷ [])
          (shop_route ∷ [])
          (Origin.of_rendered, 0)
        ≡ some clash.key)
    × (0 < 1)
merge_conflict_example =
    merge_conflict (record shop_route { host = some (codes "SHOP.io") } ∷ []) (shop_route ∷ [])
      clash clashes

-- Material that is its own decoding.
abbrev pub plainly : Text → Result Text Text
plainly t = ok t

pub material :
    render_tls plainly shops pems gw
    ≡ ok ((codes "shop.io", record { cert_pem = codes "C"; key_pem = codes "K" }) ∷ [])
unfolding render_tls of_class decode_tls_secret decode_field normalize_host trim trim_start
    is_whitespace to_lower get
material = refl

render_tls-served_example :
    All
      (IngressServed plainly pems
        ((codes "shop.io", record { cert_pem = codes "C"; key_pem = codes "K" }) ∷ []))
      (of_class gw shops.items)
render_tls-served_example =
    render_tls-served plainly pems shops gw
      ((codes "shop.io", record { cert_pem = codes "C"; key_pem = codes "K" }) ∷ []) material
