-- ===== src/Kube/Tls/Hosts.antt =====
-- The hosts of a TLS section in crates/openrusty-k8s/src/render/tls.rs.
use openrusty.Prelude.{
  ◌≡◌, refl, ap, ◌∙◌, subst, ◌⊎◌, inl, inr, Bool, true, false, Option, none, some, List, All,
  if◌then◌else◌, list_beq_iff, list_eq, nat_eq, pair_eq, arith,
}
use openrusty.Prelude.Text.{Text, is_empty}
use openrusty.Prelude.Assoc.{get}
use openrusty.Prelude.Ordered.{put, get-put, text_lt}
use openrusty.Prelude.Result.{ok, err, fold_ok-All, ok_inj}
use openrusty.Kube.Backends.{RenderError}
use openrusty.Kube.Render.{normalize_host}
use openrusty.Kube.Tls.{TlsPair, pair_same, Rendered, claim_host, one_host, all_hosts}

-- Material that a host has, it keeps.
abbrev pub Kept : Rendered → Rendered → Type 0
Kept r r' = (key : Text) (pair : TlsPair) → get key r.out ≡ some pair → get key r'.out ≡ some pair

-- A host of a section has the section's material, or it is empty.
abbrev pub HostServed : List (Text × TlsPair) → TlsPair → Text → Type 0
HostServed out pair host =
    (is_empty (normalize_host host) ≡ true) ⊎ (get (normalize_host host) out ≡ some pair)

pub keep-HostServed :
    (pair : TlsPair) (host : Text) (r r' : Rendered)
    → Kept r r'
    → HostServed r.out pair host
    → HostServed r'.out pair host
keep-HostServed pair host r r' kept (inl e) = inl e
keep-HostServed pair host r r' kept (inr e) = inr (kept (normalize_host host) pair e)

pair_same_eq : (a b : TlsPair) → pair_same a b ≡ true → a ≡ b
pair_same_eq a b e =
    ground (arith, list_beq_iff a.cert_pem b.cert_pem, list_beq_iff a.key_pem b.key_pem)

-- Material put under a key that has none, or the same.
put-Kept :
    (key k : Text) (pair p : TlsPair) (out : List (Text × TlsPair)) (found : Option TlsPair)
    → get key out ≡ found
    → (found ≡ none) ⊎ (found ≡ some pair)
    → get k out ≡ some p
    → get k (put text_lt key pair out) ≡ some p
put-Kept key k pair p out found e (inl f) h =
    get-put text_lt key k pair out ∙ ground (arith, list_beq_iff key k)
put-Kept key k pair p out found e (inr f) h =
    get-put text_lt key k pair out ∙ ground (arith, list_beq_iff key k)

get-put_self :
    (key : Text) (pair : TlsPair) (out : List (Text × TlsPair))
    → get key (put text_lt key pair out) ≡ some pair
get-put_self key pair out = get-put text_lt key key pair out ∙ ground (arith, list_beq_iff key key)

-- A host that has material already, by the test of whether it is the same.
again-lem :
    (key : Text) (existing pair : TlsPair) (r s : Rendered) (e : RenderError) (b : Bool)
    → get key r.out ≡ some existing
    → pair_same existing pair ≡ b
    → (if b then ok (record r { out = put text_lt key pair r.out }) else err e) ≡ ok s
    → Kept r s × (get key s.out ≡ some pair)
again-lem key existing pair r s e true found same f =
    subst (λ t. Kept r t × (get key t.out ≡ some pair)) (ok_inj _ refl f)
      (
        (λ k p.
            put-Kept key k pair p r.out (some existing) found
              (inr (ap some (pair_same_eq existing pair same)))),
        get-put_self key pair r.out,
      )
again-lem key existing pair r s e false found same f = absurd cc

claim_host-lem :
    (here : Text) (pair : TlsPair) (key : Text) (r s : Rendered) (found : Option TlsPair)
    → get key r.out ≡ found
    → claim_host here pair key r found ≡ ok s
    → Kept r s × (get key s.out ≡ some pair)
claim_host-lem here pair key r s none e f =
    subst (λ t. Kept r t × (get key t.out ≡ some pair)) (ok_inj _ refl f)
      ((λ k p. put-Kept key k pair p r.out none e (inl refl)), get-put_self key pair r.out)
claim_host-lem here pair key r s (some existing) e f =
    again-lem key existing pair r s _ (pair_same existing pair) e refl f

one_host-lem :
    (here : Text) (pair : TlsPair) (host : Text) (r s : Rendered) (b : Bool)
    → is_empty (normalize_host host) ≡ b
    → (if b
        then ok r
        else claim_host here pair (normalize_host host) r (get (normalize_host host) r.out))
      ≡ ok s
    → Kept r s × HostServed s.out pair host
one_host-lem here pair host r s true empty e =
    (subst (Kept r) (ok_inj _ refl e) (λ k p h. h), inl empty)
one_host-lem here pair host r s false full e =
    let (kept, served) =
      claim_host-lem here pair (normalize_host host) r s (get (normalize_host host) r.out) refl e in
    (kept, inr served)

pub Kept-refl : (r : Rendered) → Kept r r
Kept-refl r key pair e = e

pub Kept-trans : (r s t : Rendered) → Kept r s → Kept s t → Kept r t
Kept-trans r s t f g key pair e = g key pair (f key pair e)

pub all_hosts-lem :
    (here : Text) (pair : TlsPair) (hosts : List Text) (r s : Rendered)
    → all_hosts here pair hosts r ≡ ok s
    → Kept r s × All (HostServed s.out pair) hosts
all_hosts-lem here pair hosts r s e =
    fold_ok-All Kept (λ host t. HostServed t.out pair host) Kept-refl Kept-trans
      (keep-HostServed pair) (λ host. one_host here pair (normalize_host host))
      (λ host r s. one_host-lem here pair host r s (is_empty (normalize_host host)) refl) hosts r s
      e
