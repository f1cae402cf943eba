-- ===== src/UdpServer/Laws.antt =====
-- A valid peer table, and the peers that reaping takes from it.
use mavlink_router_rs.Base.{
  ℕ, ◌*◌, ◌-◌, ◌≡◌, ◌≤◌, ◌<◌, refl, sym, ◌∙◌, Bool, false, Option, none, some, List, [], ◌∷◌, arith,
  any, leb, ◌==◌, ==_iff, if◌then◌else◌, length, nat_eq, Bool-cases, inl, inr,
}
use mavlink_router_rs.Base.Table
use mavlink_router_rs.Base.Table.{Unique}
use mavlink_router_rs.Router.Registry.State.{EndpointEvent, PeerRemovalReason}
use mavlink_router_rs.UdpServer.{
  nanos_per_sec, PeerEntry, UdpServerSpec, Listener, SocketAddr, send_event, remove_peer, expired,
  reap, reap_idle_peers,
}

-- Every address has one peer, and there is room for at least one and for no more than the capacity.
pub record IsValid (spec : UdpServerSpec) (listener : Listener) : Type 0 where
  pub positive : 0 < spec.peer_capacity
  pub unique : Unique listener.peers
  pub bounded : length listener.peers ≤ spec.peer_capacity

-- Whether a peer, if there is one, was silent for the idle time.
abbrev pub silent : ℕ → ℕ → Option PeerEntry → Bool
silent now idle none = false
silent now idle (some peer) = leb idle (now - peer.last_seen)

module _ (spec : UdpServerSpec) (takes_event : List EndpointEvent → Bool)
    (address : ℕ → SocketAddr) where
  send_event-peers :
      (event : EndpointEvent) (listener : Listener)
      → (send_event spec takes_event address event listener).peers ≡ listener.peers
  unfolding send_event
  send_event-peers event listener = ground arith

  pub remove_peer-peers :
      (reason : PeerRemovalReason) (addr : ℕ) (listener : Listener)
      → (remove_peer spec takes_event address reason addr
          (Table.get addr listener.peers)
          listener).peers
        ≡ Table.remove addr listener.peers
  remove_peer-peers reason addr listener = go (Table.get addr listener.peers) refl
    where
      go :
          (o : Option PeerEntry)
          → Table.get addr listener.peers ≡ o
          → (remove_peer spec takes_event address reason addr o listener).peers
            ≡ Table.remove addr listener.peers
      go none e = unfold remove_peer in sym (Table.remove_absent addr listener.peers e)
      go (some peer) e = unfold remove_peer in send_event-peers _ _

  reap-get :
      (addrs : List ℕ) (listener : Listener) (addr : ℕ)
      → Table.get addr (reap spec takes_event address addrs listener).peers
        ≡ (if any (λ a. a == addr) addrs then none else Table.get addr listener.peers)
  unfolding reap
  reap-get [] listener addr = refl
  reap-get (a ∷ addrs) listener addr =
      let left = remove_peer spec takes_event address _ a (Table.get a listener.peers) listener in
      reap-get addrs left addr
      ∙ rw (remove_peer-peers _ a listener) (ground (arith, Table.get-remove a addr listener.peers))

expired-silent :
    (spec : UdpServerSpec) (takes_event : List EndpointEvent → Bool) (address : ℕ → SocketAddr)
    (now idle addr : ℕ) (peers : List (ℕ × PeerEntry))
    → Unique peers
    → any (λ a. a == addr) (expired spec takes_event address now idle peers)
      ≡ silent now idle (Table.get addr peers)
unfolding expired Table.get
expired-silent spec takes_event address now idle addr [] u = refl
expired-silent spec takes_event address now idle addr ((other, peer) ∷ peers) (fresh, rest) =
    let ih = expired-silent spec takes_event address now idle addr peers rest in
    elim (Bool-cases (other == addr)) [
      | inl hit ↦
          let gone : Table.get addr peers ≡ none = rw (← (==_iff other addr).0 hit) fresh in
          elim (Bool-cases (leb idle (now - peer.last_seen))) [
            | inl quiet ↦ ground arith
            | inr active ↦ ground (arith, ih, gone)
          ]
      | inr miss ↦ ground (arith, ih)
    ]

-- Reaping takes from a table with one peer for each address exactly the peers that were silent for
-- the idle time of the listener, its seconds read as nanoseconds, and leaves the entry of every other
-- peer as it is.
pub reap_idle_peers-get :
    (spec : UdpServerSpec) (takes_event : List EndpointEvent → Bool) (address : ℕ → SocketAddr)
    (now addr : ℕ) (listener : Listener)
    → Unique listener.peers
    → Table.get addr (reap_idle_peers spec takes_event address now listener).peers ≡ (
        if silent now (spec.idle_secs * nanos_per_sec) (Table.get addr listener.peers)
        then none
        else Table.get addr listener.peers)
unfolding reap_idle_peers
reap_idle_peers-get spec takes_event address now addr listener u =
    reap-get spec takes_event address
      (expired spec takes_event address now (spec.idle_secs * nanos_per_sec) listener.peers)
      listener addr
    ∙ rw (
        expired-silent spec takes_event address now (spec.idle_secs * nanos_per_sec) addr
          listener.peers u)
