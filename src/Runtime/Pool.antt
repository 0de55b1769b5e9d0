-- ===== src/Runtime/Pool.antt =====
-- crates/openrusty-proxy/src/upstream.rs and client.rs: the upstreams of a runtime and the pooled clients,
-- with the identity of TLS material of tls/mod.rs. What rustls makes of the material is a type parameter. A
-- client is kept as what it was built from.
use openrusty.Prelude.{
  ◌≡◌, ◌↔◌, ℕ, Bool, true, false, ◌&&◌, Option, none, some, List, [], ◌∷◌, map, list_beq,
  list_beq_iff, list_eq, nat_eq, pair_eq, option_beq, option_beq_iff, bool_beq, Eq, arith,
  if◌then◌else◌,
}
use openrusty.Prelude.Assoc.{get, insert}
use openrusty.Prelude.Text.{Text, some_of}
use openrusty.Health.Data.{SocketAddr, addr_eq, addr_beq, HealthConfig}
use openrusty.Picker.{Peer}
use openrusty.Config.Schema.{BalancerKind, PeerConfig, UpstreamTlsConfig, UpstreamConfig}

-- `TlsClientKey`
pub record TlsClientKey : Type 0 where
  pub server_name : Text
  pub ca_cert : Option Text
  pub client_cert : Option Text
  pub client_key : Option Text
  pub insecure_skip_verify : Bool

abbrev pub key_of_config : UpstreamTlsConfig → TlsClientKey
key_of_config cfg = record {
  server_name = cfg.server_name;
  ca_cert = cfg.ca_cert;
  client_cert = cfg.client_cert;
  client_key = cfg.client_key;
  insecure_skip_verify = cfg.insecure_skip_verify;
}

abbrev pub client_key_beq : TlsClientKey → TlsClientKey → Bool
client_key_beq a b =
    list_beq a.server_name b.server_name
    && (option_beq a.ca_cert b.ca_cert
        && (option_beq a.client_cert b.client_cert
            && (option_beq a.client_key b.client_key
                && bool_beq a.insecure_skip_verify b.insecure_skip_verify)))

pub client_key_beq_iff : (a b : TlsClientKey) → (client_key_beq a b ≡ true) ↔ (a ≡ b)
client_key_beq_iff a b = ground (
  arith,
  list_beq_iff a.server_name b.server_name,
  option_beq_iff a.ca_cert b.ca_cert,
  option_beq_iff a.client_cert b.client_cert,
  option_beq_iff a.client_key b.client_key,
)

instance abbrev pub client_key_eq : Eq TlsClientKey
client_key_eq = record { beq = client_key_beq; beq_iff = client_key_beq_iff }

pub record UpstreamTls (M : Type 0) : Type 0 where
  pub server_name : Text
  pub key : TlsClientKey
  pub config : M

pub record Upstream (M : Type 0) : Type 0 where
  pub name : Text
  pub kind : BalancerKind
  pub retries : ℕ
  pub retry_on_timeout : Bool
  pub connect_timeout : ℕ
  pub pool_idle_timeout : ℕ
  pub peers : List Peer
  pub tls : Option (UpstreamTls M)
  pub health : HealthConfig

abbrev pub peer_of : PeerConfig → Peer
peer_of p = record { addr = p.addr; weight = p.weight }

unfoldable pub from_config : {M : Type 0} → UpstreamConfig → Option (UpstreamTls M) → Upstream M
from_config cfg tls = record {
  name = cfg.name;
  kind = cfg.balancer;
  retries = cfg.retries;
  retry_on_timeout = cfg.retry_on_timeout;
  connect_timeout = cfg.connect_timeout_ms;
  pool_idle_timeout = cfg.pool_idle_timeout_ms;
  peers = map peer_of cfg.peers;
  tls = tls;
  health = cfg.health;
}

pub data PoolKey : Type 0 where
  http : SocketAddr → PoolKey
  https : SocketAddr → TlsClientKey → PoolKey

pub record HttpClient : Type 0 where
  pub connect_timeout : ℕ
  pub pool_idle_timeout : ℕ

pub record HttpsClient (M : Type 0) : Type 0 where
  pub addr : SocketAddr
  pub tls : UpstreamTls M
  pub connect_timeout : ℕ
  pub pool_idle_timeout : ℕ

pub record ClientPool (M : Type 0) : Type 0 where
  pub plain : List (SocketAddr × HttpClient)
  pub secure : List ((SocketAddr × TlsClientKey) × HttpsClient M)

abbrev pub new_pool : {M : Type 0} → ClientPool M
new_pool = record { plain = []; secure = [] }

-- What is under the key stays; else the new client goes there.
abbrev or_insert {ℓ κ} : {K : Type ℓ} {V : Type κ} ⦃e : Eq K⦄ → K → V → List (K × V) → List (K × V)
or_insert k v m = elim (get k m) [ some old ↦ m | none ↦ insert k v m ]

abbrev pub keeps_plain : SocketAddr → PoolKey → Bool
keeps_plain addr (http a) = addr_beq a addr
keeps_plain addr (https a t) = false

abbrev pub keeps_secure : SocketAddr → TlsClientKey → PoolKey → Bool
keeps_secure addr key (http a) = false
keeps_secure addr key (https a t) = addr_beq a addr && client_key_beq t key

-- `HashMap::retain` by the key.
abbrev pub retain {ℓ κ} : {K : Type ℓ} {V : Type κ} → (K → Bool) → List (K × V) → List (K × V)
retain p [] = []
retain p ((k, v) ∷ m) = let rest = retain p m in if p k then (k, v) ∷ rest else rest

module _ {M : Type 0} where
  unfoldable pub get_plain : ClientPool M → SocketAddr → ℕ → ℕ → ClientPool M
  get_plain pool addr connect_timeout pool_idle_timeout = record pool {
    plain =
        or_insert addr
          (record { connect_timeout = connect_timeout; pool_idle_timeout = pool_idle_timeout })
          pool.plain;
  }

  unfoldable pub get_tls : ClientPool M → SocketAddr → UpstreamTls M → ℕ → ℕ → ClientPool M
  get_tls pool addr tls connect_timeout pool_idle_timeout = record pool {
    secure =
        or_insert (addr, tls.key)
          (record {
            addr = addr;
            tls = tls;
            connect_timeout = connect_timeout;
            pool_idle_timeout = pool_idle_timeout;
          })
          pool.secure;
  }

  unfoldable pub evict_except : ClientPool M → List PoolKey → ClientPool M
  evict_except pool keep = record {
    plain = retain (λ addr. some_of (keeps_plain addr) keep) pool.plain;
    secure = retain (λ k. some_of (keeps_secure k.0 k.1) keep) pool.secure;
  }
