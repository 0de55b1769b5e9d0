-- ===== src/Picker/Choice.antt =====
-- Whatever the balancer of crates/openrusty-server/src/pipeline_peer.rs, what it chooses is one of
-- the candidates.
use openrusty.Prelude.{
  ℕ, ◌*◌, ◌≡◌, ap, ◌∙◌, true, some, List, [], ◌∷◌, arith, ltb, if◌then◌else◌, ◌==◌, ==_iff, length,
  get_elem?, contains, nat_eq, contains_of_get, >>=-eq-some, map,
}
use openrusty.Prelude.Int.{ℤ}
use openrusty.Health.{in_flights}
use openrusty.Balancer.{least_loop, least_conn_pick, ip_hash_pick, swrr_next}
use openrusty.Picker.{
  Upstream, Peer, BalancerKind, PickState, ctx_of, choose, swrr_pick, weights, gather, resize,
}

least_loop_member :
    (f w : List ℕ) (best : ℕ) (xs : List ℕ) {r : ℕ}
    → least_loop f w best xs ≡ some r
    → contains (best ∷ xs) r ≡ true
unfolding least_loop
least_loop_member f w best [] {r} e = ground (arith, ==_iff best r)
least_loop_member f w best (i ∷ xs) {r} e =
    let (fi, e1, k1) = >>=-eq-some (get_elem? f i) _ e in
    let (wb, e2, k2) = >>=-eq-some (get_elem? w best) _ k1 in
    let (fb, e3, k3) = >>=-eq-some (get_elem? f best) _ k2 in
    let (wi, e4, k4) = >>=-eq-some (get_elem? w i) _ k3 in
    ground (arith, least_loop_member f w (if ltb (fi * wb) (fb * wi) then i else best) xs k4)

least_conn_pick_member :
    (f w : List ℕ) (hs : List ℕ) {r : ℕ}
    → least_conn_pick f w hs ≡ some (some r)
    → contains hs r ≡ true
unfolding least_conn_pick
least_conn_pick_member f w [] e = cc
least_conn_pick_member f w (h ∷ hs) {r} e =
    let (b, run, k) = >>=-eq-some (least_loop f w h hs) _ e in
    let same : b ≡ r = ground arith in rw same at (least_loop_member f w h hs run)

ip_hash_pick_in :
    (ip : List ℕ) (hs : List ℕ) {r : ℕ} → ip_hash_pick ip hs ≡ some r → contains hs r ≡ true
unfolding ip_hash_pick
ip_hash_pick_in ip [] e = cc
ip_hash_pick_in ip (h ∷ hs) e = contains_of_get (h ∷ hs) _ e

swrr_pick_member :
    (peers : List Peer) (cur : List ℤ) (hs : List ℕ) {cur' : List ℤ} {r : ℕ}
    → swrr_pick peers cur hs ≡ some (cur', some r)
    → contains hs r ≡ true
unfolding swrr_pick
swrr_pick_member peers cur [] e = ground arith
swrr_pick_member peers cur (h ∷ hs) {cur'} {r} e =
    let sized = if length cur == length peers then cur else resize (length peers) cur in
    let (ws, e1, k1) = >>=-eq-some (gather (weights peers) (h ∷ hs)) _ e in
    let (subset, e2, k2) = >>=-eq-some (gather sized (h ∷ hs)) _ k1 in
    let (step, e3, k3) = >>=-eq-some (swrr_next ws subset) _ k2 in
    let (i, e4, k4) = >>=-eq-some (get_elem? (h ∷ hs) step.1) _ k3 in
    let same : i ≡ r = ground arith in rw same at (contains_of_get (h ∷ hs) step.1 e4)

-- The chosen index is a candidate, and the health registry and the session are not touched.
pub choose_member :
    {Inst : Type 0} (show_ip : List ℕ → List ℕ) (up : Upstream) (st : PickState Inst)
    (kind : BalancerKind) (hs : List ℕ) {st' : PickState Inst} {r : ℕ}
    → choose show_ip up st kind hs ≡ some (st', some r)
    → (contains hs r ≡ true) × (st'.health ≡ st.health) × (st'.session ≡ st.session)
unfolding choose
choose_member show_ip up st BalancerKind.swrr hs {st'} {r} e =
    let (out, e1, k1) = >>=-eq-some (swrr_pick up.peers st.swrr hs) _ e in
    let same : out.1 ≡ some r = ground arith in
    (
      swrr_pick_member up.peers st.swrr hs (e1 ∙ ap (λ c. some (out.0, c)) same),
      ground arith,
      ground arith,
    )
choose_member show_ip up st BalancerKind.ip_hash hs e = (
  ip_hash_pick_in (show_ip (ctx_of st).client_addr.ip) hs (ground arith),
  ground arith,
  ground arith,
)
choose_member show_ip up st BalancerKind.least_conn hs {st'} {r} e =
    let fs = in_flights st.health up.name (map (λ p. p.addr) up.peers) in
    let (out, e1, k1) = >>=-eq-some (least_conn_pick fs (weights up.peers) hs) _ e in
    let same : out ≡ some r = ground arith in
    (
      least_conn_pick_member fs (weights up.peers) hs (e1 ∙ ap some same),
      ground arith,
      ground arith,
    )
