-- ===== src/Health/Reload.antt =====
-- `register` of crates/openrusty-proxy/src/health.rs: what a reload keeps of the peers.
use openrusty.Prelude.{
  ℕ, zero, suc, ◌≡◌, ◌≢◌, refl, ◌∙◌, some, String, arith, List, [], ◌∷◌, All, get_elem?, map,
  string_eq,
}
use openrusty.Prelude.Assoc.{get, insert, get-insert, beq_self}
use openrusty.Health.{
  HealthRegistry, PeerSlots, PeerHealth, SocketAddr, addr_eq, addr_beq_iff, collect, previous_slots,
  register, registered_peer, is_active_healthy, fresh,
}
use openrusty.Health.Peers.{peer_at}

-- No address stands twice in a list of peers.
abbrev pub Distinct : List SocketAddr → Type 0
Distinct [] = Unit {0}
Distinct (a ∷ rest) = All (λ b. b ≢ a) rest × Distinct rest

get_elem?-map :
    {A B : Type 0} (f : A → B) (xs : List A) (j : ℕ) {a : A}
    → get_elem? xs j ≡ some a
    → get_elem? (map f xs) j ≡ some (f a)
get_elem?-map f [] j h = cc
get_elem?-map f (x ∷ xs) zero h = ground arith
get_elem?-map f (x ∷ xs) (suc j) h = get_elem?-map f xs j h

collect_absent :
    (as' : List SocketAddr) (ps : List PeerHealth) (acc : List (SocketAddr × PeerHealth))
    (a : SocketAddr)
    → All (λ b. b ≢ a) as'
    → get a (collect as' ps acc) ≡ get a acc
unfolding collect
collect_absent [] ps acc a h = refl
collect_absent (b ∷ rest) [] acc a h = refl
collect_absent (b ∷ rest) (p ∷ ps) acc a h =
    collect_absent rest ps (insert b p acc) a h.1
    ∙ ground (arith, get-insert b a p acc, addr_beq_iff b a)

collect_at :
    (addrs : List SocketAddr) (ps : List PeerHealth) (acc : List (SocketAddr × PeerHealth)) (i : ℕ)
    {a : SocketAddr} {p : PeerHealth}
    → Distinct addrs
    → get_elem? addrs i ≡ some a
    → get_elem? ps i ≡ some p
    → get a (collect addrs ps acc) ≡ some p
unfolding collect
collect_at [] ps acc i d ha hp = cc
collect_at (b ∷ rest) [] acc i d ha hp = cc
collect_at (b ∷ rest) (q ∷ ps) acc zero {a} {p} d ha hp =
    let e : b ≡ a = ground arith in
    rw (← e) (
      collect_absent rest ps (insert b q acc) b d.0
      ∙ ground (arith, get-insert b b q acc, addr_beq_iff b b))
collect_at (b ∷ rest) (q ∷ ps) acc (suc i) d ha hp = collect_at rest ps (insert b q acc) i d.1 ha hp

module _ (show : SocketAddr → String) (h : HealthRegistry) (u : String) (addrs : List SocketAddr)
    (j : ℕ) {a : SocketAddr} (listed : get_elem? addrs j ≡ some a) where
  peer_at-register : peer_at (register show h u addrs) u j ≡ some (registered_peer show h u a)
  unfolding peer_at register
  peer_at-register =
      rw
        (
          get-insert u u (record { addrs = addrs; peers = map (registered_peer show h u) addrs })
              h.upstreams,
          beq_self u,
        )
        (get_elem?-map (registered_peer show h u) addrs j listed)

  -- A peer whose address was registered before keeps its counters, its down mark and its gauge at
  -- whatever position the new list has it, and takes its verdict from the active plane.
  pub register_keeps :
      {slots : PeerSlots} {p : PeerHealth} (i : ℕ)
      → get u h.upstreams ≡ some slots
      → Distinct slots.addrs
      → get_elem? slots.addrs i ≡ some a
      → get_elem? slots.peers i ≡ some p
      → peer_at (register show h u addrs) u j
        ≡ some (record p { active_ok = is_active_healthy h u (show a) })
  unfolding registered_peer previous_slots
  register_keeps {slots} {p} i known distinct before held =
      peer_at-register
      ∙ ground (arith, collect_at slots.addrs slots.peers [] i distinct before held)

  -- A peer whose address was not registered before starts with no failures, not down and idle, and
  -- takes its verdict from the active plane.
  pub register-fresh :
      {slots : PeerSlots}
      → get u h.upstreams ≡ some slots
      → All (λ b. b ≢ a) slots.addrs
      → peer_at (register show h u addrs) u j
        ≡ some (record fresh { active_ok = is_active_healthy h u (show a) })
  unfolding registered_peer previous_slots get
  register-fresh {slots} known absent =
      peer_at-register ∙ ground (arith, collect_absent slots.addrs slots.peers [] a absent)
