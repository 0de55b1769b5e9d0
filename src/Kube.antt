-- ===== src/Kube.antt =====
-- crates/openrusty-k8s/src/model: the objects of the cluster that the gateway reads, less the
-- annotations. A JSON map is a list of its entries.
pub mod Snapshot
pub mod Backends
pub mod Render
pub mod Merge
pub mod Tls
pub mod Watch
use openrusty.Prelude.{ℕ, Option, List}
use openrusty.Prelude.Text.{Text}

pub record ObjectMeta : Type 0 where
  pub name : Text
  pub namespace : Text
  pub resource_version : Text

pub data PathType : Type 0 where
  implementation_specific prefix exact : PathType

pub record ServiceBackendPort : Type 0 where
  pub name : Option Text
  pub number : Option ℕ

pub record IngressServiceBackend : Type 0 where
  pub name : Text
  pub port : Option ServiceBackendPort

pub record IngressBackend : Type 0 where
  pub service : Option IngressServiceBackend

pub record HttpIngressPath : Type 0 where
  pub path : Text
  pub path_type : PathType
  pub backend : IngressBackend

pub record HttpIngressRuleValue : Type 0 where
  pub paths : List HttpIngressPath

pub record IngressRule : Type 0 where
  pub host : Option Text
  pub http : Option HttpIngressRuleValue

pub record IngressTls : Type 0 where
  pub hosts : List Text
  pub secret_name : Option Text

pub record IngressSpec : Type 0 where
  pub ingress_class_name : Option Text
  pub default_backend : Option IngressBackend
  pub tls : List IngressTls
  pub rules : List IngressRule

pub record Ingress : Type 0 where
  pub metadata : ObjectMeta
  pub spec : IngressSpec

pub record Secret : Type 0 where
  pub metadata : ObjectMeta
  pub type_of : Option Text
  pub entries : List (Text × Text)

-- What a snapshot reads of an object.
pub record ResourceMeta (T : Type 0) : Type 0 where
  pub meta : T → ObjectMeta

instance abbrev pub ingress_meta : ResourceMeta Ingress
ingress_meta = record { meta = λ ing. ing.metadata }

instance abbrev pub secret_meta : ResourceMeta Secret
secret_meta = record { meta = λ secret. secret.metadata }

pub data EventType : Type 0 where
  added modified deleted bookmark error : EventType

pub record WatchEvent (T : Type 0) : Type 0 where
  pub event_type : EventType
  pub object : T
