-- ===== src/Picker/Sound.antt =====
-- What `pick_peer` of crates/openrusty-server/src/pipeline_peer.rs guarantees of a picked peer.
use openrusty.Prelude.{
  ℕ, ◌≡◌, ap, ◌∙◌, true, false, ◌⊎◌, inl, inr, Option, none, some, List, [], ◌∷◌, String, arith,
  length, get_elem?, contains, nat_eq, contains-select, >>=-eq-some, Option-cases, Bool-cases,
  range,
}
use openrusty.Phase.{Phase, Decision}
use openrusty.Health.{
  SocketAddr, addr_eq, HealthRegistry, is_healthy, healthy_indices, inc_in_flight,
}
use openrusty.Health.Peers.{healthy_indices_lem}
use openrusty.Session.{run_phase}
use openrusty.Picker.{
  Upstream, Peer, Pick, PickState, ctx_of, with_ctx, choose, take_peer, pick_from, pick_default,
  pick_pinned, pick_after, pick_peer, untried_healthy, is_untried, pin_is_valid,
}
use openrusty.Picker.Choice.{choose_member}

-- A peer that may be picked: in range, not tried, and healthy at one of the two clock readings.
pub record Usable (h : HealthRegistry) (up : Upstream) (now_pin now : ℕ) (tried : List SocketAddr)
    (i : ℕ) (p : Peer) : Type 0 where
  pub listed : get_elem? up.peers i ≡ some p
  pub untried : contains tried p.addr ≡ false
  pub up_now : (is_healthy h up.name i now_pin ≡ true) ⊎ (is_healthy h up.name i now ≡ true)

untried_lem :
    (peers : List Peer) (healthy : List ℕ) (tried : List SocketAddr) (j : ℕ)
    → contains (untried_healthy peers healthy tried) j ≡ true
    → (is_untried peers tried j ≡ true) × (contains healthy j ≡ true)
unfolding untried_healthy
untried_lem peers healthy tried j h = contains-select (is_untried peers tried) healthy j h

healthy_lem :
    (h : HealthRegistry) (u : String) (n now j : ℕ)
    → contains (healthy_indices h u n now) j ≡ true
    → is_healthy h u j now ≡ true
healthy_lem h u n now j mem =
    (contains-select (λ i. is_healthy h u i now) (range n) j
      (rw (healthy_indices_lem h u n now) at mem)).0

-- What a pick of peer `p` changes from `st` to `st'`.
pub record Taken {Inst : Type 0} (up : Upstream) (st st' : PickState Inst) (p : Peer) : Type 0 where
  pub gauge_taken : st'.health ≡ inc_in_flight st.health up.name p.addr
  pub tried_kept : (ctx_of st').tried ≡ (ctx_of st).tried
  pub slots_kept : st'.session.slots ≡ st.session.slots

take_peer_lem :
    {Inst : Type 0} (up : Upstream) (st : PickState Inst) (i : ℕ) {st' : PickState Inst} {j : ℕ}
    → take_peer up st i ≡ some (st', Pick.peer j)
    → (p : Peer) × (i ≡ j) × (get_elem? up.peers j ≡ some p) × Taken up st st' p
unfolding take_peer
take_peer_lem up st i {st'} {j} e =
    let (p, e1, k1) = >>=-eq-some (get_elem? up.peers i) _ e in
    let ij : i ≡ j = ground arith in
    let listed : get_elem? up.peers j ≡ some p = rw (← ij) e1 in
    (
      p,
      ij,
      listed,
      record { gauge_taken = ground arith; tried_kept = ground arith; slots_kept = ground arith },
    )

pick_from_lem :
    {Inst : Type 0} (show_ip : List ℕ → List ℕ) (up : Upstream) (st : PickState Inst) (hs : List ℕ)
    {st' : PickState Inst} {j : ℕ}
    → pick_from show_ip up st hs ≡ some (st', Pick.peer j)
    → (p : Peer) × (contains hs j ≡ true) × (get_elem? up.peers j ≡ some p) × Taken up st st' p
unfolding pick_from
pick_from_lem show_ip up st [] e = ground arith
pick_from_lem show_ip up st (h ∷ hs) {st'} {j} e =
    let (out, e1, k1) = >>=-eq-some (choose show_ip up st up.kind (h ∷ hs)) _ e in
    elim (Option-cases out.1) [
      | inl miss ↦ absurd (ground arith)
      | inr (i, hit) ↦
          let picked : take_peer up out.0 i ≡ some (st', Pick.peer j) = ground arith in
          let (p, ij, listed, taken) = take_peer_lem up out.0 i picked in
          let (mem, same, held) =
            choose_member show_ip up st up.kind (h ∷ hs) (e1 ∙ ap (λ c. some (out.0, c)) hit) in
          (
            p,
            rw ij at mem,
            listed,
            record {
              gauge_taken = taken.gauge_taken ∙ ap (λ h. inc_in_flight h up.name p.addr) same;
              tried_kept = taken.tried_kept ∙ ap (λ s. s.shared.tried) held;
              slots_kept = taken.slots_kept ∙ ap (λ s. s.slots) held;
            },
          )
    ]

pick_default_lem :
    {Inst : Type 0} (show_ip : List ℕ → List ℕ) (up : Upstream) (now_pin now : ℕ)
    (tried : List SocketAddr) (st : PickState Inst) {st' : PickState Inst} {j : ℕ}
    → pick_default show_ip up now tried st ≡ some (st', Pick.peer j)
    → (p : Peer) × Usable st.health up now_pin now tried j p × Taken up st st' p
unfolding pick_default
pick_default_lem show_ip up now_pin now tried st {st'} {j} e =
    let healthy = healthy_indices st.health up.name (length up.peers) now in
    let (p, mem, listed, taken) =
      pick_from_lem show_ip up st (untried_healthy up.peers healthy tried) e in
    let (free, well) = untried_lem up.peers healthy tried j mem in
    (
      p,
      record {
        listed = listed;
        untried = ground arith;
        up_now = inr (healthy_lem st.health up.name (length up.peers) now j well);
      },
      taken,
    )

pin_lem :
    (up : Upstream) (h : HealthRegistry) (now_pin now : ℕ) (tried : List SocketAddr) (i : ℕ)
    (p : Peer)
    → pin_is_valid up.peers i (is_healthy h up.name i now_pin) tried ≡ true
    → get_elem? up.peers i ≡ some p
    → Usable h up now_pin now tried i p
unfolding pin_is_valid
pin_lem up h now_pin now tried i p valid listed = record {
  listed = listed;
  untried = ground arith;
  up_now = inl (ground arith);
}

pick_pinned_lem :
    {Inst : Type 0} (show_ip : List ℕ → List ℕ) (up : Upstream) (now_pin now : ℕ)
    (tried : List SocketAddr) (st : PickState Inst) (pin : Option ℕ) {st' : PickState Inst} {j : ℕ}
    → pick_pinned show_ip up now_pin now tried st pin ≡ some (st', Pick.peer j)
    → (p : Peer) × Usable st.health up now_pin now tried j p × Taken up st st' p
unfolding pick_pinned
pick_pinned_lem show_ip up now_pin now tried st none e =
    pick_default_lem show_ip up now_pin now tried st e
pick_pinned_lem show_ip up now_pin now tried st (some idx) {st'} {j} e =
    elim (Bool-cases (pin_is_valid up.peers idx (is_healthy st.health up.name idx now_pin) tried)) [
      | inl valid ↦
          let picked : take_peer up st idx ≡ some (st', Pick.peer j) = ground arith in
          let (p, ij, listed, taken) = take_peer_lem up st idx picked in
          let valid' : pin_is_valid up.peers j (is_healthy st.health up.name j now_pin) tried
              ≡ true =
            rw (← ij) valid in
          (p, pin_lem up st.health now_pin now tried j p valid' listed, taken)
      | inr invalid ↦
          let st0 : PickState _ = with_ctx st (record (ctx_of st) { peer_index = none }) in
          let picked : pick_default show_ip up now tried st0 ≡ some (st', Pick.peer j) =
            ground arith in
          let (p, usable, taken) = pick_default_lem show_ip up now_pin now tried st0 picked in
          (
            p,
            usable,
            record {
              gauge_taken = taken.gauge_taken;
              tried_kept = taken.tried_kept;
              slots_kept = taken.slots_kept;
            },
          )
    ]

pick_after_lem :
    {Inst : Type 0} (show_ip : List ℕ → List ℕ) (up : Upstream) (now_pin now : ℕ)
    (st : PickState Inst) (d : Decision) {st' : PickState Inst} {j : ℕ}
    → pick_after show_ip up now_pin now st d ≡ some (st', Pick.peer j)
    → (p : Peer) × Usable st.health up now_pin now (ctx_of st).tried j p × Taken up st st' p
unfolding pick_after
pick_after_lem show_ip up now_pin now st (Decision.deny s) e = absurd (ground arith)
pick_after_lem show_ip up now_pin now st _ e =
    pick_pinned_lem show_ip up now_pin now (ctx_of st).tried st (ctx_of st).peer_index e

-- What the balancer phase leaves of the state.
abbrev pub phased : {Inst : Type 0} → PickState Inst → PickState Inst
phased st = record st { session = (run_phase Phase.balancer st.session).0 }

pub pick_peer-Taken :
    {Inst : Type 0} (show_ip : List ℕ → List ℕ) (up : Upstream) (now_pin now : ℕ)
    (st : PickState Inst) {st' : PickState Inst} {j : ℕ}
    → pick_peer show_ip up now_pin now st ≡ some (st', Pick.peer j)
    → (p : Peer) × Usable st.health up now_pin now (ctx_of (phased st)).tried j p
      × Taken up (phased st) st' p
unfolding pick_peer
pick_peer-Taken show_ip up now_pin now st e =
    pick_after_lem show_ip up now_pin now (phased st) (run_phase Phase.balancer st.session).1 e

-- A picked peer is one of the upstream's, was not tried by the request, and was healthy at one of
-- the two clock readings; exactly its in-flight slot is taken. This holds of every balancer, of a
-- peer pinned by a plugin, and whatever the plugins do.
pub pick_peer-Usable :
    {Inst : Type 0} (show_ip : List ℕ → List ℕ) (up : Upstream) (now_pin now : ℕ)
    (st : PickState Inst) {st' : PickState Inst} {j : ℕ}
    → pick_peer show_ip up now_pin now st ≡ some (st', Pick.peer j)
    → (p : Peer) × Usable st.health up now_pin now
        (run_phase Phase.balancer st.session).0.shared.tried
        j
        p
      × (st'.health ≡ inc_in_flight st.health up.name p.addr)
pick_peer-Usable show_ip up now_pin now st e =
    let (p, usable, taken) = pick_peer-Taken show_ip up now_pin now st e in
    (p, usable, taken.gauge_taken)
