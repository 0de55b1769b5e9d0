-- ===== src/Kube/Tls.antt =====
-- crates/openrusty-k8s/src/render/tls.rs: the material of the TLS sections of the Ingresses. The decoding
-- of a field from base64 to text, by crates outside the repository, is a parameter.
pub mod Hosts
pub mod Served
use openrusty.Prelude.{
  ℕ, Bool, true, false, not, ◌&&◌, Option, none, some, List, [], ◌∷◌, ◌++◌, if◌then◌else◌, list_beq,
  list_eq, nat_eq, pair_eq,
}
use openrusty.Prelude.Text.{Text, codes, trim, is_empty}
use openrusty.Prelude.Assoc.{get}
use openrusty.Prelude.Ordered.{put, text_lt}
use openrusty.Prelude.Result.{Result, ok, err, ◌>>=◌, ◌>>◌, refuse, fold_ok}
use openrusty.Kube.{IngressTls, Ingress, Secret}
use openrusty.Kube.Backends.{
  RenderError, secret_missing, secret_not_tls, secret_pem, tls_host_conflict, or_empty,
}
use openrusty.Kube.Snapshot.{ObjectKey, Snapshot}
use openrusty.Kube.Render.{normalize_host, label, of_class}

pub record TlsPair : Type 0 where
  pub cert_pem : Text
  pub key_pem : Text

abbrev pub pair_same : TlsPair → TlsPair → Bool
pair_same a b = list_beq a.cert_pem b.cert_pem && list_beq a.key_pem b.key_pem

abbrev pub tls_type : Text
tls_type = codes "kubernetes.io/tls"

abbrev pub is_tls : Option Text → Bool
is_tls none = false
is_tls (some t) = list_beq t tls_type

-- The text of a claim: the owner and its secret.
abbrev claim : Text → Text → Text → Text
claim owner ns secret_name =
    owner ++ (codes " (secret " ++ (ns ++ (codes "/" ++ (secret_name ++ codes ")"))))

-- The hosts with their material, and with the sections that claimed them.
pub record Rendered : Type 0 where
  pub out : List (Text × TlsPair)
  pub claims : List (Text × Text)

abbrev pub nothing : Rendered
nothing = record { out = []; claims = [] }

-- `map_err` and `ok_or_else` of a field.
abbrev required : (Text → RenderError) → Result Text (Option Text) → Result RenderError Text
required fail (err reason) = err (fail reason)
required fail (ok none) = err (fail (codes "missing data key"))
required fail (ok (some pem)) = ok pem

abbrev fail_of : Text → Secret → Text → Text → RenderError
fail_of owner secret field reason =
    secret_pem owner secret.metadata.namespace secret.metadata.name field reason

-- One host of a section: the material that it has, against the section's.
abbrev pub claim_host :
    Text → TlsPair → Text → Rendered → Option TlsPair → Result RenderError Rendered
claim_host here pair key r none =
    ok (record { out = put text_lt key pair r.out; claims = put text_lt key here r.claims })
claim_host here pair key r (some existing) =
    if pair_same existing pair
    then ok (record r { out = put text_lt key pair r.out })
    else err (tls_host_conflict key (or_empty (get key r.claims)) here)

abbrev pub one_host : Text → TlsPair → Text → Rendered → Result RenderError Rendered
one_host here pair key r = if is_empty key then ok r else claim_host here pair key r (get key r.out)

abbrev pub all_hosts : Text → TlsPair → List Text → Rendered → Result RenderError Rendered
all_hosts here pair hosts = fold_ok (λ host. one_host here pair (normalize_host host)) hosts

-- Base64 and UTF-8, as the code calls them: the text, or the reason of the failure.
module _ (decode : Text → Result Text Text) where
  abbrev decode_value : Option Text → Result Text (Option Text)
  decode_value none = ok none
  decode_value (some value) = decode value >>= λ pem. ok (some pem)

  unfoldable pub decode_field : Secret → Text → Result Text (Option Text)
  decode_field secret field = decode_value (get field secret.entries)

  unfoldable pub decode_tls_secret : Text → Secret → Result RenderError TlsPair
  decode_tls_secret owner secret =
      if not (is_tls secret.type_of)
      then err (
          secret_not_tls owner secret.metadata.namespace secret.metadata.name
            (or_empty secret.type_of))
      else (required (fail_of owner secret (codes "tls.crt"))
            (decode_field secret (codes "tls.crt"))
          >>= λ cert.
              required (fail_of owner secret (codes "tls.key"))
                (decode_field secret (codes "tls.key"))
              >>= λ key.
                  refuse (is_empty (trim cert))
                    (fail_of owner secret (codes "tls.crt") (codes "PEM is empty"))
                  >> refuse (is_empty (trim key))
                      (fail_of owner secret (codes "tls.key") (codes "PEM is empty"))
                  >> ok (record { cert_pem = cert; key_pem = key }))

  abbrev pub found_secret :
      Text → Text → Text → List Text → Rendered → Option Secret → Result RenderError Rendered
  found_secret owner ns secret_name hosts r none = err (secret_missing owner ns secret_name)
  found_secret owner ns secret_name hosts r (some secret) =
      decode_tls_secret owner secret >>= λ pair. all_hosts (claim owner ns secret_name) pair hosts r

  abbrev pub one_section :
      Snapshot Secret → Text → Text → IngressTls → Rendered → Result RenderError Rendered
  one_section secrets owner ns tls r = elim tls.secret_name [
    | none ↦ ok r
    | some secret_name ↦
        found_secret owner ns secret_name tls.hosts r (get (ns, secret_name) secrets.items)
  ]

  abbrev pub one_ingress :
      Snapshot Secret → ObjectKey × Ingress → Rendered → Result RenderError Rendered
  one_ingress secrets (key, ing) = fold_ok (one_section secrets (label key) key.0) ing.spec.tls

  unfoldable pub render_tls :
      Snapshot Ingress → Snapshot Secret → Text → Result RenderError (List (Text × TlsPair))
  render_tls ingresses secrets ingress_class =
      fold_ok (one_ingress secrets) (of_class ingress_class ingresses.items) nothing >>= λ r.
      ok r.out
