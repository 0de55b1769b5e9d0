-- ===== src/Config/Schema.antt =====
-- The configuration as crates/openrusty-core/src/config.rs and its sections declare it: config/listeners.rs,
-- config/tls.rs, config/dynamic.rs, config/egress.rs and config/ingress.rs. A path of the file system is its
-- text; a map is the list of its entries in the order of their keys.
use openrusty.Prelude.{◌≡◌, ◌↔◌, refl, subst, ℕ, Bool, true, false, Option, none, List, Eq}
use openrusty.Prelude.Text.{Text}
use openrusty.Health.Data.{SocketAddr, HealthConfig}
use openrusty.Session.{FailPolicy}
use openrusty.Routing.{RouteConfig}
use openrusty.Dynamic.{DynamicRoute}
use openrusty.Admin.{AdminConfig}

pub data ListenerRole : Type 0 where
  inbound outbound admin : ListenerRole

abbrev pub role_beq : ListenerRole → ListenerRole → Bool
role_beq ListenerRole.inbound ListenerRole.inbound = true
role_beq ListenerRole.outbound ListenerRole.outbound = true
role_beq ListenerRole.admin ListenerRole.admin = true
role_beq a b = false

role_beq_refl : (a : ListenerRole) → role_beq a a ≡ true
role_beq_refl ListenerRole.inbound = refl
role_beq_refl ListenerRole.outbound = refl
role_beq_refl ListenerRole.admin = refl

eq_of_role_beq : (a b : ListenerRole) → role_beq a b ≡ true → a ≡ b
eq_of_role_beq ListenerRole.inbound ListenerRole.inbound h = refl
eq_of_role_beq ListenerRole.inbound ListenerRole.outbound h = cc
eq_of_role_beq ListenerRole.inbound ListenerRole.admin h = cc
eq_of_role_beq ListenerRole.outbound ListenerRole.inbound h = cc
eq_of_role_beq ListenerRole.outbound ListenerRole.outbound h = refl
eq_of_role_beq ListenerRole.outbound ListenerRole.admin h = cc
eq_of_role_beq ListenerRole.admin ListenerRole.inbound h = cc
eq_of_role_beq ListenerRole.admin ListenerRole.outbound h = cc
eq_of_role_beq ListenerRole.admin ListenerRole.admin h = refl

pub role_beq_iff : (a b : ListenerRole) → (role_beq a b ≡ true) ↔ (a ≡ b)
role_beq_iff a b = (eq_of_role_beq a b, (λ e. subst (λ c. role_beq a c ≡ true) e (role_beq_refl a)))

instance abbrev pub role_eq : Eq ListenerRole
role_eq = record { beq = role_beq; beq_iff = role_beq_iff }

pub record ListenerConfig : Type 0 where
  pub role : ListenerRole
  pub listen : SocketAddr
  pub http1_only : Bool
  pub transparent : Bool
  pub detect_timeout_ms : ℕ
  pub tls : Bool
  pub tls_cert : Option Text
  pub tls_key : Option Text

pub record ServerConfig : Type 0 where
  pub listen : SocketAddr
  pub log_level : Text
  pub log_file : Option Text
  pub http1_only : Bool
  pub listeners : List ListenerConfig
  pub shutdown_grace_ms : ℕ

pub record PluginsConfig : Type 0 where
  pub dir : Text
  pub order : List Text
  pub timeout_ms : ℕ
  pub max_memory_mb : ℕ
  pub on_failure : FailPolicy
  pub settings : List (Text × List (Text × Text))
  pub instance_pool_size : ℕ
  pub log_on_no_route : Bool

pub data BalancerKind : Type 0 where
  swrr ip_hash least_conn : BalancerKind

pub record PeerConfig : Type 0 where
  pub addr : SocketAddr
  pub weight : ℕ

pub record UpstreamTlsConfig : Type 0 where
  pub server_name : Text
  pub ca_cert : Option Text
  pub client_cert : Option Text
  pub client_key : Option Text
  pub insecure_skip_verify : Bool

pub record UpstreamConfig : Type 0 where
  pub name : Text
  pub balancer : BalancerKind
  pub retries : ℕ
  pub retry_on_timeout : Bool
  pub connect_timeout_ms : ℕ
  pub pool_idle_timeout_ms : ℕ
  pub peers : List PeerConfig
  pub endpoints : List Text
  pub tls : Option UpstreamTlsConfig
  pub health : HealthConfig

pub record DynamicConfig : Type 0 where
  pub dir : Text
  pub timeout_ms : ℕ
  pub max_memory_mb : ℕ
  pub on_failure : FailPolicy
  pub max_body_bytes : ℕ
  pub settings : List (Text × List (Text × Text))
  pub routes : List DynamicRoute

pub record IngressConfig : Type 0 where
  pub enabled : Bool
  pub ingress_class : Text
  pub kubeconfig : Text
  pub namespaces : List Text

pub data EgressMode : Type 0 where
  direct gateway deny : EgressMode

pub record EgressConfig : Type 0 where
  pub mode : EgressMode
  pub gateway : Text

pub record Config : Type 0 where
  pub server : ServerConfig
  pub admin : AdminConfig
  pub plugins : PluginsConfig
  pub dynamic : Option DynamicConfig
  pub upstreams : List UpstreamConfig
  pub routes : List RouteConfig
  pub ingress : IngressConfig
  pub egress : EgressConfig

-- The values of `HealthConfig::default`.
abbrev pub default_health : HealthConfig
default_health = record { max_fails = 3; fail_window_s = 10; fail_timeout_s = 10; active = none }
