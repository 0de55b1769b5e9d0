-- ===== src/Health.antt =====
-- crates/openrusty-proxy/src/health.rs: the passive and the active health of the peers, and their
-- in-flight gauges. The maps are association lists. An operation locks what it touches and reads
-- the clock before it starts, so each is one step here, with the time as its argument; the mutation
-- through an `Arc` that a `register` has since replaced is not modelled. `u32` counters and the
-- `u64` clock keep their wrap-around.
pub mod Data
pub mod Peers
pub mod Passive
pub mod Active
pub mod Reload
pub mod Gauges
use openrusty.Prelude.{
  ℕ, ◌+◌, ◌-◌, ◌*◌, ◌%◌, min, Bool, true, false, ◌&&◌, Option, none, some, List, [], ◌∷◌, map,
  String, ltb, leb, ◌==◌, if◌then◌else◌, length, get_elem?, modify, range, select, Eq, list_eq,
  nat_eq, list_beq_iff, ==_iff, ◌≡◌, ◌↔◌, arith, string_eq, pair_eq, u32_mod, u64_mod, u64_max,
}
use openrusty.Prelude.Assoc.{get, insert}
pub use openrusty.Health.Data.{
  SocketAddr, addr_beq, addr_beq_iff, addr_eq, HealthConfig, PeerHealth, PeerSlots, ActivePeer,
  HealthRegistry, new, fresh,
}

-- The map that `register` collects from the previous slots: of two slots with one address the
-- later one stays.
unfoldable pub collect :
    List SocketAddr
    → List PeerHealth
    → List (SocketAddr × PeerHealth)
    → List (SocketAddr × PeerHealth)
collect (a ∷ rest) (p ∷ ps) acc = collect rest ps (insert a p acc)
collect (a ∷ rest) [] acc = acc
collect [] ps acc = acc

unfoldable pub previous_slots : HealthRegistry → String → List (SocketAddr × PeerHealth)
unfolding collect
previous_slots h upstream = elim (get upstream h.upstreams) [
  | none ↦ []
  | some slots ↦ collect slots.addrs slots.peers []
]

-- `is_active_healthy`: a pair that was never probed is healthy.
unfoldable pub is_active_healthy : HealthRegistry → String → String → Bool
is_active_healthy h upstream addr = elim (get (upstream, addr) h.active) [
  | none ↦ true
  | some p ↦ p.healthy
]

-- `show` is the `Display` of `SocketAddr`.
unfoldable pub registered_peer :
    (SocketAddr → String) → HealthRegistry → String → SocketAddr → PeerHealth
unfolding previous_slots is_active_healthy
registered_peer show h upstream addr =
    let kept : PeerHealth = elim (get addr (previous_slots h upstream)) [
      | none ↦ fresh
      | some p ↦ p
    ] in
    record kept { active_ok = is_active_healthy h upstream (show addr) }

unfoldable pub register :
    (SocketAddr → String) → HealthRegistry → String → List SocketAddr → HealthRegistry
unfolding registered_peer
register show h upstream addrs = record h {
  upstreams =
      insert upstream
        (record { addrs = addrs; peers = map (registered_peer show h upstream) addrs }) h.upstreams;
}

unfoldable pub lookup : HealthRegistry → String → ℕ → Option PeerSlots
lookup h upstream idx = elim (get upstream h.upstreams) [
  | none ↦ none
  | some slots ↦ if ltb idx (length slots.peers) then some slots else none
]

-- The test that `is_healthy` and `healthy_indices` make of a slot.
abbrev pub is_up : PeerHealth → ℕ → Bool
is_up p now_ms = leb p.down_until_ms now_ms && p.active_ok

-- An index past the end is healthy; after `lookup` there is none.
abbrev pub slot_up : List PeerHealth → ℕ → ℕ → Bool
slot_up peers idx now_ms = elim (get_elem? peers idx) [ none ↦ true | some p ↦ is_up p now_ms ]

unfoldable pub is_healthy : HealthRegistry → String → ℕ → ℕ → Bool
unfolding lookup
is_healthy h upstream idx now_ms = elim (lookup h upstream idx) [
  | none ↦ true
  | some slots ↦ slot_up slots.peers idx now_ms
]

unfoldable pub healthy_indices : HealthRegistry → String → ℕ → ℕ → List ℕ
healthy_indices h upstream peer_count now_ms = elim (get upstream h.upstreams) [
  | none ↦ range peer_count
  | some slots ↦ select (λ i. slot_up slots.peers i now_ms) (range peer_count)
]

-- `u64::saturating_mul`
abbrev pub saturating_mul : ℕ → ℕ → ℕ
saturating_mul a b = min (a * b) u64_max

-- The sum is a plain `+` on `u64`, which wraps in a release build.
unfoldable pub evaluate_failure : ℕ → ℕ → ℕ → HealthConfig → Option ℕ
evaluate_failure fails_after window_start now_ms cfg =
    if cfg.max_fails == 0
    then none
    else if ltb (saturating_mul cfg.fail_window_s 1000) (now_ms - window_start)
    then none
    else if leb cfg.max_fails fails_after
    then some ((now_ms + saturating_mul cfg.fail_timeout_s 1000) % u64_mod)
    else none

-- What `record_failure` does to the slot once it holds its lock.
unfoldable pub count_failure : HealthConfig → ℕ → PeerHealth → PeerHealth
count_failure cfg now_ms p =
    let stale = ltb (saturating_mul cfg.fail_window_s 1000) (now_ms - p.window_start_ms) in
    let start = if stale then now_ms else p.window_start_ms in
    let fails = ((if stale then 0 else p.fails) + 1) % u32_mod in
    elim (evaluate_failure fails start now_ms cfg) [
      | none ↦ record p { fails = fails; window_start_ms = start }
      | some down_until ↦ record p {
        fails = 0;
        window_start_ms = start;
        down_until_ms = down_until;
      }
    ]

-- A write through the slot that `lookup` found; none, if it found none.
unfoldable pub update_peer :
    HealthRegistry → String → ℕ → (PeerHealth → PeerHealth) → HealthRegistry
unfolding lookup
update_peer h upstream idx f = elim (lookup h upstream idx) [
  | none ↦ h
  | some slots ↦ record h {
    upstreams = insert upstream (record slots { peers = modify slots.peers idx f }) h.upstreams;
  }
]

unfoldable pub record_failure : HealthRegistry → String → ℕ → HealthConfig → ℕ → HealthRegistry
record_failure h upstream idx cfg now_ms =
    if cfg.max_fails == 0 then h else update_peer h upstream idx (count_failure cfg now_ms)

unfoldable pub record_success : HealthRegistry → String → ℕ → ℕ → HealthRegistry
record_success h upstream idx now_ms =
    update_peer h upstream idx (λ p. record p { fails = 0; window_start_ms = now_ms })

-- The verdict, the failures and the successes after one probe.
unfoldable pub evaluate_active : Bool → ℕ → ℕ → Bool → ℕ → ℕ → Bool × ℕ × ℕ
evaluate_active healthy fails successes ok unhealthy_threshold healthy_threshold =
    let successes' = (successes + 1) % u32_mod in
    let fails' = (fails + 1) % u32_mod in
    if ok
    then ((if healthy then true else leb healthy_threshold successes'), 0, successes')
    else ((if healthy then ltb fails' unhealthy_threshold else false), fails', 0)

abbrev pub unprobed : ActivePeer
unprobed = record { healthy = true; fails = 0; successes = 0 }

unfoldable pub probed : ActivePeer → Bool → ℕ → ℕ → ActivePeer
unfolding evaluate_active
probed p ok unhealthy_threshold healthy_threshold =
    let (healthy, fails, successes) =
      evaluate_active p.healthy p.fails p.successes ok unhealthy_threshold healthy_threshold in
    record { healthy = healthy; fails = fails; successes = successes }

-- `entry(key).or_insert_with(..)`
unfoldable pub active_entry : HealthRegistry → String → String → ActivePeer
active_entry h upstream addr = elim (get (upstream, addr) h.active) [ none ↦ unprobed | some p ↦ p ]

unfoldable pub record_probe :
    HealthRegistry → String → ℕ → String → Bool → ℕ → ℕ → HealthRegistry × Bool
record_probe h upstream idx addr ok unhealthy_threshold healthy_threshold =
    let p = probed (active_entry h upstream addr) ok unhealthy_threshold healthy_threshold in
    let stored = record h { active = insert (upstream, addr) p h.active } in
    (update_peer stored upstream idx (λ slot. record slot { active_ok = p.healthy }), p.healthy)

-- `addr_slot`: the first slot of an address, counted from `i`.
unfoldable pub addr_slot : List SocketAddr → SocketAddr → ℕ → Option ℕ
addr_slot [] addr i = none
addr_slot (a ∷ rest) addr i = if addr_beq a addr then some i else addr_slot rest addr (i + 1)

-- The write that `inc_in_flight` and `dec_in_flight` make to the slot of an address.
unfoldable pub update_gauge : HealthRegistry → String → SocketAddr → (ℕ → ℕ) → HealthRegistry
update_gauge h upstream addr f = elim (get upstream h.upstreams) [
  | none ↦ h
  | some slots ↦ elim (addr_slot slots.addrs addr 0) [
    | none ↦ h
    | some pos ↦
        let peers = modify slots.peers pos (λ p. record p { in_flight = f p.in_flight }) in
        record h { upstreams = insert upstream (record slots { peers = peers }) h.upstreams }
  ]
]

unfoldable pub inc_in_flight : HealthRegistry → String → SocketAddr → HealthRegistry
inc_in_flight h upstream addr = update_gauge h upstream addr (λ n. (n + 1) % u64_mod)

-- `saturating_sub`
unfoldable pub dec_in_flight : HealthRegistry → String → SocketAddr → HealthRegistry
dec_in_flight h upstream addr = update_gauge h upstream addr (λ n. n - 1)

unfoldable pub gauge : HealthRegistry → String → SocketAddr → ℕ
gauge h upstream addr = elim (get upstream h.upstreams) [
  | none ↦ 0
  | some slots ↦ elim (addr_slot slots.addrs addr 0) [
    | none ↦ 0
    | some pos ↦ elim (get_elem? slots.peers pos) [ none ↦ 0 | some p ↦ p.in_flight ]
  ]
]

-- One gauge for each peer, by address.
unfoldable pub in_flights : HealthRegistry → String → List SocketAddr → List ℕ
in_flights h upstream peers = map (gauge h upstream) peers
