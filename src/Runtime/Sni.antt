-- ===== src/Runtime/Sni.antt =====
-- crates/openrusty-server/src/tls/resolver.rs: the certificates by the name that a client asks for. The
-- session material that rustls makes of a pair, or its refusal, is a parameter.
use openrusty.Prelude.{ℕ, Option, none, some, List, [], ◌∷◌, length, list_eq, nat_eq}
use openrusty.Prelude.Assoc.{get}
use openrusty.Prelude.Ordered.{put, text_lt}
use openrusty.Prelude.Text.{Text, lowercase}
use openrusty.Kube.Tls.{TlsPair}

-- `DynamicCertResolver`; the map is replaced as a whole.
pub record CertResolver (K : Type 0) : Type 0 where
  pub table : List (Text × K)
  pub fallback : Option K

abbrev pub new : {K : Type 0} → CertResolver K
new = record { table = []; fallback = none }

module _ {K : Type 0} where
  abbrev or_fallback : Option K → Option K → Option K
  or_fallback (some key) fallback = some key
  or_fallback none fallback = fallback

  unfoldable pub lookup : CertResolver K → Option Text → Option K
  lookup r none = r.fallback
  lookup r (some name) = or_fallback (get (lowercase name) r.table) r.fallback

  abbrev store_map : CertResolver K → List (Text × K) → CertResolver K × ℕ
  store_map r next = (record r { table = next }, length next)

  abbrev pub store_fallback : CertResolver K → K → CertResolver K
  store_fallback r key = record r { fallback = some key }

  module _ (certified_key : Text → Text → Option K) where
    abbrev usable : Text → Option K → List (Text × K) → List (Text × K)
    usable host none next = next
    usable host (some key) next = put text_lt (lowercase host) key next

    abbrev table_from : List (Text × TlsPair) → List (Text × K) → List (Text × K)
    table_from [] next = next
    table_from ((host, pair) ∷ pairs) next =
        table_from pairs (usable host (certified_key pair.cert_pem pair.key_pem) next)

    unfoldable pub update_from_tls_pairs :
        CertResolver K → List (Text × TlsPair) → CertResolver K × ℕ
    update_from_tls_pairs r pairs = store_map r (table_from pairs [])
