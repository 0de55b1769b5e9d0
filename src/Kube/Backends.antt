-- ===== src/Kube/Backends.antt =====
-- The backends of crates/openrusty-k8s/src/render/routes.rs: the upstream that a backend stands for, its
-- name and its address, and `RenderError` of render/mod.rs.
use openrusty.Prelude.{
  ℕ, zero, suc, ◌+◌, ◌/◌, ◌%◌, ◌≡◌, ltb, if◌then◌else◌, Option, none, some, [], ◌∷◌, ◌++◌, ◌↔◌,
  Bool, true, ◌&&◌, ◌==◌, Eq, list_beq, list_beq_iff, nat_eq, arith,
}
use openrusty.Prelude.Text.{Text, codes}
use openrusty.Prelude.Result.{Result, ok, err}
use openrusty.Kube.{IngressBackend, ServiceBackendPort}

pub data RenderError : Type 0 where
  bad_path : Text → Text → RenderError
  service_missing : Text → RenderError
  backend_port_missing : Text → Text → Text → RenderError
  named_port : Text → Text → Text → Text → RenderError
  secret_missing : Text → Text → Text → RenderError
  secret_not_tls : Text → Text → Text → Text → RenderError
  secret_pem : Text → Text → Text → Text → Text → RenderError
  tls_host_conflict : Text → Text → Text → RenderError

-- The decimal digits of a number, for as many digits as the first argument allows; ten serve a `u32`.
unfoldable pub digits : ℕ → ℕ → Text
digits zero n = []
digits (suc more) n =
    let high = digits more (n / 10) in
    if ltb n 10 then (b'0' + n) ∷ [] else high ++ (b'0' + n % 10) ∷ []

abbrev pub decimal : ℕ → Text
decimal n = digits 10 n

abbrev pub dash : Text
dash = b'-' ∷ []

unfoldable pub upstream_name : Text → Text → ℕ → Text
upstream_name ns svc port = codes "ing-" ++ (ns ++ (dash ++ (svc ++ (dash ++ decimal port))))

unfoldable pub endpoint : Text → Text → ℕ → Text
endpoint ns svc port = svc ++ (codes "." ++ (ns ++ (codes ".svc.cluster.local:" ++ decimal port)))

abbrev pub Target : Type 0
Target = Text × Text × ℕ

abbrev pub target_beq : Target → Target → Bool
target_beq (ns, svc, port) (ns', svc', port') =
    list_beq ns ns' && (list_beq svc svc' && port == port')

pub target_beq_iff : (a b : Target) → (target_beq a b ≡ true) ↔ (a ≡ b)
target_beq_iff (ns, svc, port) (ns', svc', port') =
    ground (arith, list_beq_iff ns ns', list_beq_iff svc svc')

instance abbrev pub target_eq : Eq Target
target_eq = record { beq = target_beq; beq_iff = target_beq_iff }

abbrev pub or_empty : Option Text → Text
or_empty none = []
or_empty (some t) = t

abbrev pub target_of_port :
    Text → Text → Text → Option ServiceBackendPort → Result RenderError Target
target_of_port owner ns svc none = err (backend_port_missing owner ns svc)
target_of_port owner ns svc (some port) = elim port.number [
  | some number ↦ ok (ns, svc, number)
  | none ↦ err (named_port owner ns svc (or_empty port.name))
]

unfoldable pub backend_target : Text → Text → IngressBackend → Result RenderError Target
backend_target owner ns backend = elim backend.service [
  | none ↦ err (service_missing owner)
  | some service ↦ target_of_port owner ns service.name service.port
]

abbrev pub name_of : Target → Text
name_of (ns, svc, port) = upstream_name ns svc port
