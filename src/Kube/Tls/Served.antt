-- ===== src/Kube/Tls/Served.antt =====
-- That no host loses its material in crates/openrusty-k8s/src/render/tls.rs.
use openrusty.Prelude.{
  ◌≡◌, refl, sym, ap, ◌∙◌, subst, Option, none, some, List, All, All-mono, list_eq, nat_eq, pair_eq,
}
use openrusty.Prelude.Text.{Text}
use openrusty.Prelude.Assoc.{get}
use openrusty.Prelude.Result.{Result, ok, fold_ok, fold_ok-All, ok_inj, >>=-eq-ok}
use openrusty.Kube.{IngressTls, Ingress, Secret}
use openrusty.Kube.Snapshot.{ObjectKey, Snapshot}
use openrusty.Kube.Render.{label, of_class}
use openrusty.Kube.Tls.{
  TlsPair, Rendered, decode_tls_secret, found_secret, one_section, nothing, one_ingress, render_tls,
}
use openrusty.Kube.Tls.Hosts.{
  Kept, HostServed, keep-HostServed, Kept-refl, Kept-trans, all_hosts-lem,
}

module _ (decode : Text → Result Text Text) (secrets : Snapshot Secret) where
  -- A section that names a secret has the material of that secret for each of its hosts.
  abbrev pub SectionServed : List (Text × TlsPair) → ObjectKey → IngressTls → Type 0
  SectionServed out key tls =
      (secret_name : Text)
      → tls.secret_name ≡ some secret_name
      → (secret : Secret) × (pair : TlsPair) × (get (key.0, secret_name) secrets.items
          ≡ some secret)
        × (decode_tls_secret decode (label key) secret ≡ ok pair)
        × All (HostServed out pair) tls.hosts

  keep-SectionServed :
      (key : ObjectKey) (tls : IngressTls) (r s : Rendered)
      → Kept r s
      → SectionServed r.out key tls
      → SectionServed s.out key tls
  keep-SectionServed key tls r s kept h secret_name e =
      let (secret, pair, found, decoded, served) = h secret_name e in
      (
        secret,
        pair,
        found,
        decoded,
        All-mono (HostServed r.out pair) (HostServed s.out pair)
            (λ host. keep-HostServed pair host r s kept) tls.hosts served,
      )

  found-lem :
      (key : ObjectKey) (tls : IngressTls) (secret_name : Text) (r s : Rendered)
      (found : Option Secret)
      → tls.secret_name ≡ some secret_name
      → get (key.0, secret_name) secrets.items ≡ found
      → found_secret decode (label key) key.0 secret_name tls.hosts r found ≡ ok s
      → Kept r s × SectionServed s.out key tls
  found-lem key tls secret_name r s none named e f = absurd cc
  found-lem key tls secret_name r s (some secret) named e f =
      let (pair, decoded, hosts) = >>=-eq-ok (decode_tls_secret decode (label key) secret) _ f in
      let (kept, served) = all_hosts-lem _ pair tls.hosts r s hosts in
      (
        kept,
        (λ name named'. (
          secret,
          pair,
          ap (λ n. get (key.0, n) secrets.items) (some_inj (sym named' ∙ named)) ∙ e,
          decoded,
          served,
        )),
      )
    where
      some_inj : {a b : Text} → some a ≡ some b → a ≡ b
      some_inj e = cc

  section-lem :
      (key : ObjectKey) (tls : IngressTls) (r s : Rendered) (named : Option Text)
      → tls.secret_name ≡ named
      → (elim named [
        | none ↦ ok r
        | some secret_name ↦
            found_secret decode
              (label key)
              key.0
              secret_name
              tls.hosts
              r
              (get (key.0, secret_name) secrets.items)
      ])
        ≡ ok s
      → Kept r s × SectionServed s.out key tls
  section-lem key tls r s none named e = (
    subst (Kept r) (ok_inj _ refl e) (λ k p h. h),
    (λ name named'. absurd (differ (sym named ∙ named'))),
  )
    where
      differ : {a : Text} → none ≡ some a → ⊥
      differ e = cc
  section-lem key tls r s (some secret_name) named e =
      found-lem key tls secret_name r s (get (key.0, secret_name) secrets.items) named refl e

  -- All sections of an Ingress are served.
  abbrev pub IngressServed : List (Text × TlsPair) → ObjectKey × Ingress → Type 0
  IngressServed out (key, ing) = All (SectionServed out key) ing.spec.tls

  one_ingress-lem :
      (item : ObjectKey × Ingress) (r s : Rendered)
      → one_ingress decode secrets item r ≡ ok s
      → Kept r s × IngressServed s.out item
  one_ingress-lem (key, ing) r s e =
      fold_ok-All Kept (λ tls t. SectionServed t.out key tls) Kept-refl Kept-trans
        (keep-SectionServed key) (one_section decode secrets (label key) key.0)
        (λ tls r s. section-lem key tls r s tls.secret_name refl) ing.spec.tls r s e

  -- When the TLS sections of a snapshot render, every section of an Ingress of the class that names a
  -- secret finds that secret in the Ingress's namespace, the secret decodes, and each non-empty host of
  -- the section has exactly that secret's certificate and key: rendering drops no host and gives none the
  -- material of another section.
  pub render_tls-served :
      (ingresses : Snapshot Ingress) (ingress_class : Text) (out : List (Text × TlsPair))
      → render_tls decode ingresses secrets ingress_class ≡ ok out
      → All (IngressServed out) (of_class ingress_class ingresses.items)
  unfolding render_tls
  render_tls-served ingresses ingress_class out e =
      let (r, run, same) =
        >>=-eq-ok
          (fold_ok (one_ingress decode secrets) (of_class ingress_class ingresses.items) nothing)
          (λ r. ok r.out) e in
      subst (λ o. All (IngressServed o) (of_class ingress_class ingresses.items))
        (ok_inj _ refl same)
        (fold_ok-All Kept (λ item t. IngressServed t.out item) Kept-refl Kept-trans
          (λ item r s kept.
            All-mono (SectionServed r.out item.0) (SectionServed s.out item.0)
              (λ tls. keep-SectionServed item.0 tls r s kept) item.1.spec.tls)
          (one_ingress decode secrets) one_ingress-lem (of_class ingress_class ingresses.items)
          nothing r run).1
