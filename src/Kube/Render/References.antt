-- ===== src/Kube/Render/References.antt =====
-- Which upstreams the rendered routes of crates/openrusty-k8s/src/render/routes.rs name.
use openrusty.Prelude.{
  ◌≡◌, refl, sym, ap, ap₂, ◌∙◌, Bool, true, false, ◌||◌, Option, none, some, List, [], ◌∷◌, ◌++◌,
  map, contains, list_eq, nat_eq, pair_eq, list_beq, if◌then◌else◌,
}
use openrusty.Prelude.Text.{Text, some_of, starts_with}
use openrusty.Prelude.Ordered.{add_all, some_of-add_all}
use openrusty.Prelude.Result.{Result, ok, err, ◌>>=◌, gather}
use openrusty.Config.Schema.{UpstreamConfig}
use openrusty.Routing.{RouteConfig}
use openrusty.Kube.{IngressBackend, HttpIngressRuleValue, Ingress}
use openrusty.Kube.Backends.{RenderError, bad_path, Target, target_eq, backend_target, name_of}
use openrusty.Kube.Snapshot.{Snapshot}
use openrusty.Kube.Render.{
  owned, route_to, default_routes, path_routes, http_routes, ingress_routes, render_routes,
  target_lt, default_targets, path_targets, http_targets, ingress_targets, build_upstream,
  render_upstreams,
}

abbrev upstreams_of : List RouteConfig → List Text
upstreams_of routes = map (λ route. route.upstream) routes

abbrev names_of : List Target → List Text
names_of targets = map name_of targets

-- When the routes render, so do the targets, and they stand for the same upstreams.
abbrev Follows : Result RenderError (List RouteConfig) → Result RenderError (List Target) → Type 0
Follows (err e) targets = Unit
Follows (ok routes) (err e) = ⊥
Follows (ok routes) (ok targets) = upstreams_of routes ≡ names_of targets

map-append {ℓ κ} :
    {A : Type ℓ} {B : Type κ} (f : A → B) (xs ys : List A) → map f (xs ++ ys) ≡ map f xs ++ map f ys
map-append f [] ys = refl
map-append f (x ∷ xs) ys = ap (λ zs. f x ∷ zs) (map-append f xs ys)

-- A step and what comes after it.
step-Follows :
    (first rest : Result RenderError (List RouteConfig))
    (first' rest' : Result RenderError (List Target))
    → Follows first first'
    → Follows rest rest'
    → Follows
        (first >>= λ r. rest >>= λ s. ok (r ++ s))
        (first' >>= λ r. rest' >>= λ s. ok (r ++ s))
step-Follows (err e) rest first' rest' f g = tt
step-Follows (ok r) (err e) first' rest' f g = tt
step-Follows (ok r) (ok s) (ok r') (err e) f g = elim g [ ]
step-Follows (ok r) (ok s) (err e) rest' f g = elim f [ ]
step-Follows (ok r) (ok s) (ok r') (ok s') f g =
    map-append (λ route. route.upstream) r s ∙ ap₂ ◌++◌ f g ∙ sym (map-append name_of r' s')

gather-Follows {ℓ} :
    {A : Type ℓ} (f : A → Result RenderError (List RouteConfig))
    (g : A → Result RenderError (List Target)) (h : (a : A) → Follows (f a) (g a)) (items : List A)
    → Follows (gather f items) (gather g items)
gather-Follows f g h [] = refl
gather-Follows f g h (a ∷ items) =
    step-Follows (f a) (gather f items) (g a) (gather g items) (h a) (gather-Follows f g h items)

one-Follows :
    (host : Option Text) (path : Text) (exact : Bool) (found : Result RenderError Target)
    → Follows
        (found >>= λ target. ok (route_to host path exact target ∷ []))
        (found >>= λ target. ok (target ∷ []))
one-Follows host path exact (ok target) = refl
one-Follows host path exact (err e) = tt

guard-Follows :
    (b : Bool) (e : RenderError) (routes : Result RenderError (List RouteConfig))
    (targets : Result RenderError (List Target))
    → Follows routes targets
    → Follows (if b then routes else err e) targets
guard-Follows true e routes targets h = h
guard-Follows false e routes targets h = tt

http-Follows :
    (owner ns : Text) (host : Option Text) (http : Option HttpIngressRuleValue)
    → Follows (http_routes owner ns host http) (http_targets owner ns http)
http-Follows owner ns host none = refl
http-Follows owner ns host (some http) =
    gather-Follows (path_routes owner ns host) (path_targets owner ns)
      (λ path.
        guard-Follows (starts_with path.path (b'/' ∷ [])) (bad_path owner path.path) _
          (path_targets owner ns path)
          (one-Follows _ path.path _ (backend_target owner ns path.backend)))
      http.paths

default-Follows :
    (owner ns : Text) (backend : Option IngressBackend)
    → Follows (default_routes owner ns backend) (default_targets owner ns backend)
default-Follows owner ns none = refl
default-Follows owner ns (some backend) = one-Follows none _ false (backend_target owner ns backend)

ingress-Follows : (item : Text × Ingress) → Follows (ingress_routes item) (ingress_targets item)
ingress-Follows (owner, ing) =
    step-Follows (default_routes owner ing.metadata.namespace ing.spec.default_backend) _
      (default_targets owner ing.metadata.namespace ing.spec.default_backend) _
      (default-Follows owner ing.metadata.namespace ing.spec.default_backend)
      (gather-Follows (λ rule. http_routes owner ing.metadata.namespace rule.host rule.http)
        (λ rule. http_targets owner ing.metadata.namespace rule.http)
        (λ rule. http-Follows owner ing.metadata.namespace rule.host rule.http) ing.spec.rules)

-- Membership of a name, as a test of the targets.
contains-map :
    {A : Type 0} (f : A → Text) (name : Text) (items : List A)
    → contains (map f items) name ≡ some_of (λ a. list_beq (f a) name) items
contains-map f name [] = refl
contains-map f name (a ∷ items) = ap (λ b. list_beq (f a) name || b) (contains-map f name items)

or_false : (b : Bool) → (b || false) ≡ b
or_false true = refl
or_false false = refl

map-map :
    (targets : List Target) → map (λ u. u.name) (map build_upstream targets) ≡ names_of targets
map-map [] = refl
map-map (t ∷ targets) = ap (λ zs. name_of t ∷ zs) (map-map targets)

-- The set of the targets has the names of the targets.
contains-set :
    (name : Text) (targets : List Target)
    → contains (map (λ u. u.name) (map build_upstream (add_all target_lt targets []))) name
      ≡ contains (names_of targets) name
contains-set name targets =
    ap (λ names. contains names name) (map-map (add_all target_lt targets []))
    ∙ contains-map name_of name (add_all target_lt targets [])
    ∙ some_of-add_all (λ t. list_beq (name_of t) name) target_lt targets []
    ∙ or_false (some_of (λ t. list_beq (name_of t) name) targets)
    ∙ sym (contains-map name_of name targets)

-- What the two renderings of a snapshot have to do with each other.
abbrev pub Agree : List RouteConfig → Result RenderError (List UpstreamConfig) → Type 0
Agree routes (err e) = ⊥
Agree routes (ok upstreams) =
    (name : Text)
    → contains (map (λ u. u.name) upstreams) name
      ≡ contains (map (λ route. route.upstream) routes) name

Agree-of_Follows :
    (rendered : Result RenderError (List RouteConfig)) (targets : Result RenderError (List Target))
    (routes : List RouteConfig)
    → Follows rendered targets
    → rendered ≡ ok routes
    → Agree routes (targets >>= λ ts. ok (map build_upstream (add_all target_lt ts [])))
Agree-of_Follows (ok r) (ok ts) routes f e =
    λ name. contains-set name ts ∙ ap (λ names. contains names name) (sym f ∙ cc)
Agree-of_Follows (ok r) (err e') routes f e = f
Agree-of_Follows (err e') targets routes f e = absurd cc

-- When the routes of a snapshot render, so do its upstreams, and the names of the rendered upstreams are
-- exactly the upstreams that the routes name: no reference dangles and no upstream is idle.
pub render_upstreams_complete :
    (snap : Snapshot Ingress) (ingress_class : Text) (routes : List RouteConfig)
    → render_routes snap ingress_class ≡ ok routes
    → Agree routes (render_upstreams snap ingress_class)
unfolding render_routes render_upstreams
render_upstreams_complete snap ingress_class routes e =
    Agree-of_Follows (gather ingress_routes (owned snap ingress_class))
      (gather ingress_targets (owned snap ingress_class)) routes
      (gather-Follows ingress_routes ingress_targets ingress-Follows (owned snap ingress_class)) e
