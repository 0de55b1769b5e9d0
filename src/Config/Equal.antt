-- ===== src/Config/Equal.antt =====
-- The derived equality of the section of the dynamic API, crates/openrusty-core/src/config/dynamic.rs.
use openrusty.Prelude.{
  ◌≡◌, ◌↔◌, Bool, true, false, ◌&&◌, ◌==◌, list_beq, list_beq_iff, list_eq, nat_eq, pair_eq, Eq,
  arith,
}
use openrusty.Session.{FailPolicy}
use openrusty.Dynamic.{DynamicRoute}
use openrusty.Config.Schema.{DynamicConfig}

abbrev pub policy_beq : FailPolicy → FailPolicy → Bool
policy_beq FailPolicy.fail_open FailPolicy.fail_open = true
policy_beq FailPolicy.fail_closed FailPolicy.fail_closed = true
policy_beq a b = false

abbrev pub route_beq : DynamicRoute → DynamicRoute → Bool
route_beq a b = list_beq a.method b.method && (list_beq a.path b.path && list_beq a.target b.target)

pub route_beq_iff : (a b : DynamicRoute) → (route_beq a b ≡ true) ↔ (a ≡ b)
route_beq_iff a b = ground (
  arith,
  list_beq_iff a.method b.method,
  list_beq_iff a.path b.path,
  list_beq_iff a.target b.target,
)

instance abbrev pub route_eq : Eq DynamicRoute
route_eq = record { beq = route_beq; beq_iff = route_beq_iff }

abbrev pub dynamic_beq : DynamicConfig → DynamicConfig → Bool
dynamic_beq a b =
    list_beq a.dir b.dir
    && (a.timeout_ms == b.timeout_ms
        && (a.max_memory_mb == b.max_memory_mb
            && (policy_beq a.on_failure b.on_failure
                && (a.max_body_bytes == b.max_body_bytes
                    && (list_beq a.settings b.settings && list_beq a.routes b.routes)))))
