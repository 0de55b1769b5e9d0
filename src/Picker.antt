-- ===== src/Picker.antt =====
-- crates/openrusty-server/src/pipeline_peer.rs: the choice of a peer for one attempt, with the part
-- of crates/openrusty-proxy/src/upstream.rs and crates/openrusty-core/src/context.rs that it reads.
-- The clock is read twice, so there are two times; the in-flight gauges and the effective weights
-- are part of the state that is passed on. A `none` of a whole operation is a panic of the source.
pub mod Choice
pub mod Sound
use openrusty.Prelude.{
  ℕ, zero, suc, Bool, true, false, not, ◌&&◌, Option, none, some, List, [], ◌∷◌, ◌++◌, String, ◌==◌,
  if◌then◌else◌, length, get_elem?, set, map, select, contains, replicate, ◌>>=◌,
}
use openrusty.Prelude.Int.{ℤ, pos}
use openrusty.Phase.{Phase, Decision}
use openrusty.Health.{
  SocketAddr, addr_eq, HealthConfig, HealthRegistry, is_healthy, healthy_indices, inc_in_flight,
  dec_in_flight, in_flights,
}
pub use openrusty.Config.Schema.{BalancerKind}
use openrusty.Balancer.{swrr_next, ip_hash_pick, least_conn_pick}
use openrusty.Session.{RequestSession, run_phase}

pub record Peer : Type 0 where
  pub addr : SocketAddr
  pub weight : ℕ

-- `Upstream`, less the timeouts and the TLS material of its connections.
pub record Upstream : Type 0 where
  pub name : String
  pub kind : BalancerKind
  pub retries : ℕ
  pub retry_on_timeout : Bool
  pub peers : List Peer
  pub health : HealthConfig

-- `ReqCtx`, less the request line and the headers, which the choice does not read.
pub record ReqCtx : Type 0 where
  pub client_addr : SocketAddr
  pub peer_index : Option ℕ
  pub attempts : ℕ
  pub tried : List SocketAddr

-- `mark_tried`
unfoldable pub mark_tried : ReqCtx → SocketAddr → ReqCtx
mark_tried ctx addr =
    if contains ctx.tried addr then ctx else record ctx { tried = ctx.tried ++ addr ∷ [] }

pub data Pick : Type 0 where
  peer deny : ℕ → Pick
  no_peer : Pick

-- The test of `untried_healthy` on an index.
abbrev pub is_untried : List Peer → List SocketAddr → ℕ → Bool
is_untried peers tried i = elim (get_elem? peers i) [
  | none ↦ false
  | some p ↦ not (contains tried p.addr)
]

unfoldable pub untried_healthy : List Peer → List ℕ → List SocketAddr → List ℕ
untried_healthy peers healthy tried = select (is_untried peers tried) healthy

unfoldable pub pin_is_valid : List Peer → ℕ → Bool → List SocketAddr → Bool
pin_is_valid peers idx healthy tried = elim (get_elem? peers idx) [
  | none ↦ false
  | some p ↦ healthy && not (contains tried p.addr)
]

-- The elements at the given indices.
unfoldable pub gather : {A : Type 0} → List A → List ℕ → Option (List A)
gather xs [] = some []
gather xs (i ∷ is) = do x ← get_elem? xs i; rest ← gather xs is; some (x ∷ rest)

-- `cur[i] = subset[j]`, for the `j`-th of the indices `i`.
unfoldable pub scatter : List ℤ → List ℕ → List ℤ → List ℤ
scatter cur (i ∷ is) (v ∷ vs) = scatter (set cur i v) is vs
scatter cur (i ∷ is) [] = cur
scatter cur [] vs = cur

-- `cur.resize(n, 0)`
unfoldable pub resize : ℕ → List ℤ → List ℤ
resize zero cur = []
resize (suc n) [] = pos 0 ∷ resize n []
resize (suc n) (c ∷ cur) = c ∷ resize n cur

abbrev pub weights : List Peer → List ℕ
weights = map (λ p. p.weight)

-- The effective weights after the step, and the chosen index.
unfoldable pub swrr_pick : List Peer → List ℤ → List ℕ → Option (List ℤ × Option ℕ)
unfolding gather scatter resize
swrr_pick peers cur [] = some (cur, none)
swrr_pick peers cur (first ∷ rest) = do
  let sized = if length cur == length peers then cur else resize (length peers) cur
  ws ← gather (weights peers) (first ∷ rest)
  subset ← gather sized (first ∷ rest)
  (subset', k) ← swrr_next ws subset
  i ← get_elem? (first ∷ rest) k
  some (scatter sized (first ∷ rest) subset', some i)

-- What a choice reads and changes: the health registry, the effective weights of the upstream and
-- the session of the request.
pub record PickState (Inst : Type 0) : Type 0 where
  pub health : HealthRegistry
  pub swrr : List ℤ
  pub session : RequestSession Inst ReqCtx

abbrev pub ctx_of : {Inst : Type 0} → PickState Inst → ReqCtx
ctx_of st = st.session.shared

abbrev pub with_ctx : {Inst : Type 0} → PickState Inst → ReqCtx → PickState Inst
with_ctx st ctx = record st { session = record (st.session) { shared = ctx } }

-- The configured balancer over the candidates; `show_ip` is the `Display` of the client's address.
unfoldable pub choose :
    {Inst : Type 0}
    → (List ℕ → List ℕ)
    → Upstream
    → PickState Inst
    → BalancerKind
    → List ℕ
    → Option (PickState Inst × Option ℕ)
unfolding swrr_pick
choose show_ip up st BalancerKind.swrr candidates = do
  (cur, chosen) ← swrr_pick up.peers st.swrr candidates
  some (record st { swrr = cur }, chosen)
choose show_ip up st BalancerKind.ip_hash candidates =
    some (st, ip_hash_pick (show_ip (ctx_of st).client_addr.ip) candidates)
choose show_ip up st BalancerKind.least_conn candidates = do
  chosen ←
      least_conn_pick (in_flights st.health up.name (map (λ p. p.addr) up.peers)) (weights up.peers)
        candidates
  some (st, chosen)

-- `inc_in_flight` on the address of the peer that was picked.
unfoldable pub take_peer :
    {Inst : Type 0} → Upstream → PickState Inst → ℕ → Option (PickState Inst × Pick)
take_peer up st i = do
  p ← get_elem? up.peers i
  some (record st { health = inc_in_flight st.health up.name p.addr }, Pick.peer i)

-- The default balancer, once the candidates are known.
unfoldable pub pick_from :
    {Inst : Type 0}
    → (List ℕ → List ℕ)
    → Upstream
    → PickState Inst
    → List ℕ
    → Option (PickState Inst × Pick)
unfolding choose take_peer
pick_from show_ip up st [] = some (st, Pick.no_peer)
pick_from show_ip up st (first ∷ rest) = do
  (st', chosen) ← choose show_ip up st up.kind (first ∷ rest)
  elim chosen [ none ↦ some (st', Pick.no_peer) | some i ↦ take_peer up st' i ]

-- The default balancer, restricted to the healthy peers that were not tried.
unfoldable pub pick_default :
    {Inst : Type 0}
    → (List ℕ → List ℕ)
    → Upstream
    → ℕ
    → List SocketAddr
    → PickState Inst
    → Option (PickState Inst × Pick)
unfolding pick_from
pick_default show_ip up now tried st =
    let healthy = healthy_indices st.health up.name (length up.peers) now in
    pick_from show_ip up st (untried_healthy up.peers healthy tried)

-- The peer that the plugins pinned, if there is one and it is valid, and else the default.
unfoldable pub pick_pinned :
    {Inst : Type 0}
    → (List ℕ → List ℕ)
    → Upstream
    → ℕ
    → ℕ
    → List SocketAddr
    → PickState Inst
    → Option ℕ
    → Option (PickState Inst × Pick)
unfolding pick_default pin_is_valid
pick_pinned show_ip up now_pin now tried st none = pick_default show_ip up now tried st
pick_pinned show_ip up now_pin now tried st (some idx) =
    if pin_is_valid up.peers idx (is_healthy st.health up.name idx now_pin) tried
    then take_peer up st idx
    else pick_default show_ip up now tried (with_ctx st (record (ctx_of st) { peer_index = none }))

-- What follows the balancer phase, which decided `d` and left the state `st`.
unfoldable pub pick_after :
    {Inst : Type 0}
    → (List ℕ → List ℕ)
    → Upstream
    → ℕ
    → ℕ
    → PickState Inst
    → Decision
    → Option (PickState Inst × Pick)
unfolding pick_pinned
pick_after show_ip up now_pin now st (Decision.deny s) = some (st, Pick.deny s)
pick_after show_ip up now_pin now st d =
    pick_pinned show_ip up now_pin now (ctx_of st).tried st (ctx_of st).peer_index

unfoldable pub pick_peer :
    {Inst : Type 0}
    → (List ℕ → List ℕ)
    → Upstream
    → ℕ
    → ℕ
    → PickState Inst
    → Option (PickState Inst × Pick)
unfolding pick_after
pick_peer show_ip up now_pin now st =
    let (session, d) = run_phase Phase.balancer st.session in
    pick_after show_ip up now_pin now (record st { session = session }) d

unfoldable pub release_peer : HealthRegistry → Upstream → ℕ → HealthRegistry
release_peer h up idx = elim (get_elem? up.peers idx) [
  | none ↦ h
  | some p ↦ dec_in_flight h up.name p.addr
]
