-- ===== src/Config/Listeners.antt =====
-- Which listeners `validate_listeners` of crates/openrusty-core/src/config/listeners.rs accepts.
use openrusty.Prelude.{
  ℕ, ◌+◌, ◌≡◌, ◌<◌, ◌↔◌, ◌⊎◌, refl, Bool, true, false, Option, none, some, List, [], ◌∷◌, is_some,
  contains, NoRepeat, All, map, arith,
}
use openrusty.Prelude.Result.{Result, ok, err}
use openrusty.Health.Data.{SocketAddr, addr_eq}
use openrusty.Config.Schema.{ListenerRole, role_beq_iff, role_eq, ListenerConfig, Config}
use openrusty.Config.{Fault, check_material, check_listener, validate_from, validate_listeners}

-- A sound source of TLS material: none and no switch, or the switch, no interception but on the admin
-- listener, and a pair of files or the rendered secrets.
abbrev pub HasMaterial : Bool → ListenerConfig → Type 0
HasMaterial ingress l =
    ((l.tls ≡ false) × (l.tls_cert ≡ none) × (l.tls_key ≡ none))
    ⊎ ((l.tls ≡ true)
        × ((l.role ≡ ListenerRole.admin) ⊎ (l.transparent ≡ false))
        × (((is_some l.tls_cert ≡ true) × (is_some l.tls_key ≡ true)) ⊎ (ingress ≡ true)))

abbrev pub WellFormed : Bool → ListenerConfig → Type 0
WellFormed ingress l =
    ((l.transparent ≡ false) ⊎ (0 < l.detect_timeout_ms))
    × ((l.role ≡ ListenerRole.outbound) ⊎ HasMaterial ingress l)

check_material_iff :
    (ingress : Bool) (l : ListenerConfig)
    → (check_material ingress l ≡ none) ↔ HasMaterial ingress l
check_material_iff ingress l = ground (arith, role_beq_iff l.role ListenerRole.admin)

check_listener_iff :
    (ingress : Bool) (roles : List ListenerRole) (addrs : List SocketAddr) (l : ListenerConfig)
    → (check_listener ingress roles addrs l ≡ none)
      ↔ ((contains roles l.role ≡ false) × (contains addrs l.listen ≡ false) × WellFormed ingress l)
unfolding check_listener
check_listener_iff ingress roles addrs l =
    ground (arith, role_beq_iff l.role ListenerRole.outbound, check_material_iff ingress l)

abbrev pub AcceptedFrom : Bool → List ListenerRole → List SocketAddr → List ListenerConfig → Type 0
AcceptedFrom ingress roles addrs ls =
    NoRepeat roles (map (λ l. l.role) ls)
    × NoRepeat addrs (map (λ l. l.listen) ls)
    × All (WellFormed ingress) ls

-- One round: no fault, and the rest accepted.
round_iff :
    {P Q : Type 0} (i : ℕ) (found : Option Fault) (rest : Result (ℕ × Fault) (Unit {0}))
    → (found ≡ none) ↔ P
    → (rest ≡ ok tt) ↔ Q
    → ((elim found [ some fault ↦ err (i, fault) | none ↦ rest ]) ≡ ok tt) ↔ (P × Q)
round_iff i none rest p q = (λ h. (p.0 refl, q.0 h), λ a. q.1 a.1)
round_iff i (some fault) rest p q = (λ h. cc, λ a. absurd (no_fault (p.1 a.0)))
  where
    no_fault : some fault ≡ none → ⊥
    no_fault h = cc

validate_from_iff :
    (ingress : Bool) (i : ℕ) (roles : List ListenerRole) (addrs : List SocketAddr)
    (ls : List ListenerConfig)
    → (validate_from ingress i roles addrs ls ≡ ok tt) ↔ AcceptedFrom ingress roles addrs ls
unfolding validate_from
validate_from_iff ingress i roles addrs [] = (λ h. (tt, tt, tt), λ a. refl)
validate_from_iff ingress i roles addrs (l ∷ ls) =
    let round =
      round_iff i (check_listener ingress roles addrs l)
        (validate_from ingress (i + 1) (l.role ∷ roles) (l.listen ∷ addrs) ls)
        (check_listener_iff ingress roles addrs l)
        (validate_from_iff ingress (i + 1) (l.role ∷ roles) (l.listen ∷ addrs) ls) in
    (
      (λ h.
          let ((role, addr, formed), (roles', addrs', all)) = round.0 h in
          ((role, roles'), (addr, addrs'), (formed, all))),
      (λ a.
          let ((role, roles'), (addr, addrs'), (formed, all)) = a in
          round.1 ((role, addr, formed), (roles', addrs', all))),
    )

-- A list of listeners is accepted exactly if no role and no address stands twice in it, and each listener
-- has a budget for the sniff where it is transparent, and is outbound or has a sound source of TLS material:
-- no file and no switch, or the switch with a pair of files or the ingress, without interception unless it is
-- the admin listener.
pub validate_listeners_iff :
    (cfg : Config)
    → (validate_listeners cfg ≡ ok tt) ↔ (
        NoRepeat [] (map (λ l. l.role) cfg.server.listeners)
        × NoRepeat [] (map (λ l. l.listen) cfg.server.listeners)
        × All (WellFormed cfg.ingress.enabled) cfg.server.listeners)
unfolding validate_listeners
validate_listeners_iff cfg = validate_from_iff cfg.ingress.enabled 0 [] [] cfg.server.listeners
