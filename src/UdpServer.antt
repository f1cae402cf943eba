-- ===== src/UdpServer.antt =====
-- The peer table of a `udps:` listener: src/endpoint/udp/server.rs. A socket address is a number
-- that `address` spells out, and a point in time is a number of nanoseconds. The event channel and the frame channel are of the crate tokio:
-- `takes_event` and `is_open` say whether they take one more. The sockets and the writer tasks are
-- left out, except that a peer's writer is told to stop.
pub mod Laws
pub mod Admission
mod Tests
use mavlink_router_rs.Base.{
  ℕ, ◌+◌, ◌-◌, ◌*◌, Bool, true, false, not, ◌&&◌, Option, none, some, List, [], ◌∷◌, ◌++◌, leb,
  if◌then◌else◌, length, Name, nat_eq,
}
use mavlink_router_rs.Base.Entries.{min_by_key}
use mavlink_router_rs.Base.Table
use mavlink_router_rs.Endpoint.Filters.{IdentityFlags}
use mavlink_router_rs.Endpoint.SeqTracker
use mavlink_router_rs.Endpoint.SeqTracker.{SeqTracker}
use mavlink_router_rs.Endpoint.Session.{
  Inbound, Session, Flow, break_off, append_bytes, seq_tracker_capacity, forward_inbound_frames,
}
use mavlink_router_rs.Endpoint.Stats as Stats
use mavlink_router_rs.Endpoint.Stats.{EndpointStats, FramerCounters, no_counters, connected, sync}
use mavlink_router_rs.Endpoint.TxQueue.{TxQueue, update}
use mavlink_router_rs.Mavlink.Frame.{MsgEntry}
use mavlink_router_rs.Mavlink.Framer.{Framer}
use mavlink_router_rs.Router.Learn.{is_some}
use mavlink_router_rs.Router.Registry.State.{
  EndpointEvent, peer_added, peer_removed, PeerRemovalReason, lru_evicted, idle_peer,
  listener_shutdown,
}

-- `Duration::from_secs`.
abbrev pub nanos_per_sec : ℕ
nanos_per_sec = 1000000000

-- The counters of a peer, its queue and its writer are known by the peer's own id.
pub record PeerEntry : Type 0 where
  pub child_id : ℕ
  pub framer : Framer
  pub last_seen : ℕ
  pub framer_counters : FramerCounters
  pub seq_tracker : SeqTracker

-- What the peer table reads of a listener's spec.
pub record UdpServerSpec : Type 0 where
  pub parent_id : ℕ
  pub parent_name : Name
  pub idle_secs : ℕ
  pub peer_capacity : ℕ
  pub identity : IdentityFlags

-- The listener: its peers by their address, the next id, the counters by id, the events and the
-- frames that it sent, and the writers that were told to stop.
pub record Listener : Type 0 where
  pub peers : List (ℕ × PeerEntry)
  pub next_id : ℕ
  pub stats : ℕ → EndpointStats
  pub events : List EndpointEvent
  pub sent : List Inbound
  pub cancelled : List ℕ

-- A `SocketAddr` with its parts as the standard library renders them.
pub data SocketAddr : Type 0 where
  v4_addr v6_addr : (ip port : Name) → SocketAddr

-- `<parent>/<ip>-<port>`, or `<parent>/[<ip>]-<port>`.
unfoldable peer_endpoint_name : Name → SocketAddr → Name
peer_endpoint_name parent_name (v4_addr ip port) = parent_name ++ 47 ∷ ip ++ 45 ∷ port
peer_endpoint_name parent_name (v6_addr ip port) = parent_name ++ 47 ∷ 91 ∷ ip ++ 93 ∷ 45 ∷ port

abbrev pub seen : ℕ × PeerEntry → ℕ
seen (addr, peer) = peer.last_seen

module _ (spec : UdpServerSpec) (takes_event : List EndpointEvent → Bool)
    (address : ℕ → SocketAddr) where
  -- `send` on the event channel, where a failure is ignored.
  unfoldable pub send_event : EndpointEvent → Listener → Listener
  send_event event listener =
      if takes_event listener.events
      then record listener { events = listener.events ++ event ∷ [] }
      else listener

  -- A peer leaves the table, its writer is told to stop, and the router is told why.
  unfoldable pub remove_peer : PeerRemovalReason → ℕ → Option PeerEntry → Listener → Listener
  unfolding send_event
  remove_peer reason addr none listener = listener
  remove_peer reason addr (some peer) listener =
      send_event (peer_removed spec.parent_id peer.child_id reason) (record listener {
        peers = Table.remove addr listener.peers;
        cancelled = listener.cancelled ++ peer.child_id ∷ [];
      })

  unfoldable pub evict_lru_peer : Listener → Listener
  unfolding remove_peer
  evict_lru_peer listener = elim (min_by_key seen listener.peers) [
    | none ↦ listener
    | some found ↦ remove_peer lru_evicted found.1.0 (Table.get found.1.0 listener.peers) listener
  ]

  abbrev pub new_peer : ℕ → ℕ → PeerEntry
  new_peer child_id now = record {
    child_id = child_id;
    framer = record { buf = []; resync_bytes = 0; crc_errors = 0 };
    last_seen = now;
    framer_counters = no_counters;
    seq_tracker = SeqTracker.new seq_tracker_capacity;
  }

  -- The listener once an id is taken for a new peer.
  abbrev pub allocated : Listener → Listener
  allocated listener = record listener {
    next_id = listener.next_id + 1;
    stats = update listener.stats listener.next_id (Stats.new connected);
  }

  unfoldable pub announcement : ℕ → ℕ → EndpointEvent
  unfolding peer_endpoint_name
  announcement src child_id =
      peer_added spec.parent_id child_id (peer_endpoint_name spec.parent_name (address src))
        child_id
        (record {
          tx_queue = record { inner = child_id; stats = child_id };
          identity = spec.identity;
          endpoint_name = spec.parent_name;
        })

  -- Whether the peer was admitted. The router hears of it before another peer has to go.
  unfoldable pub admit_new_peer : ℕ → ℕ → Listener → Bool × Listener
  unfolding evict_lru_peer
  admit_new_peer src now listener =
      let child_id = listener.next_id in
      let started = allocated listener in
      if takes_event started.events
      then (let announced : Listener = record started {
        events = started.events ++ announcement src child_id ∷ [];
      } in
          let roomy =
            if leb spec.peer_capacity (length announced.peers)
            then evict_lru_peer announced
            else announced in
          (true, record roomy { peers = Table.insert src (new_peer child_id now) roomy.peers }))
      else (false, started)

  -- The addresses of the peers that were silent for the idle time.
  unfoldable pub expired : ℕ → ℕ → List (ℕ × PeerEntry) → List ℕ
  expired now idle [] = []
  expired now idle ((addr, peer) ∷ peers) =
      let rest = expired now idle peers in
      if leb idle (now - peer.last_seen) then addr ∷ rest else rest

  unfoldable pub reap : List ℕ → Listener → Listener
  unfolding remove_peer
  reap [] listener = listener
  reap (addr ∷ addrs) listener =
      reap addrs (remove_peer idle_peer addr (Table.get addr listener.peers) listener)

  unfoldable pub reap_idle_peers : ℕ → Listener → Listener
  unfolding expired reap
  reap_idle_peers now listener =
      reap (expired now (spec.idle_secs * nanos_per_sec) listener.peers) listener

  unfoldable stop_peers : List (ℕ × PeerEntry) → Listener → Listener
  unfolding send_event
  stop_peers [] listener = listener
  stop_peers ((addr, peer) ∷ peers) listener = stop_peers peers (
      send_event (peer_removed spec.parent_id peer.child_id listener_shutdown)
        (record listener { cancelled = listener.cancelled ++ peer.child_id ∷ [] }))

  unfoldable shutdown_all_peers : Listener → Listener
  unfolding stop_peers
  shutdown_all_peers listener = stop_peers listener.peers (record listener { peers = [] })

  module _ (sorted : List (ℕ × MsgEntry)) (is_open : List Inbound → Bool) where
    -- The session that a peer's packet is read in.
    abbrev session_of : PeerEntry → List ℕ → Listener → Session
    session_of peer data_bytes listener = record {
      framer = append_bytes data_bytes peer.framer;
      framer_counters = peer.framer_counters;
      seq_tracker = peer.seq_tracker;
      stats = listener.stats peer.child_id;
      sent = listener.sent;
    }

    -- What the session leaves in the peer's entry. The counters are published unless the channel closed.
    abbrev store_session : ℕ → PeerEntry → Session → Listener → Listener
    store_session src peer session listener = record listener {
      peers =
          Table.insert src
            (record peer {
              framer = session.framer;
              framer_counters = session.framer_counters;
              seq_tracker = session.seq_tracker;
            })
            listener.peers;
      stats = update listener.stats peer.child_id session.stats;
      sent = session.sent;
    }

    abbrev pub published : Flow × Session → Session
    published (break_off, session) = session
    published (_, session) =
        let (counters, stats) = sync session.framer_counters session.framer session.stats in
        record session { framer_counters = counters; stats = stats }

    unfoldable receive : List ℕ → ℕ → ℕ → Option PeerEntry → Listener → Listener
    receive data_bytes src now none listener = listener
    receive data_bytes src now (some old) listener =
        let peer : PeerEntry = record old { last_seen = now } in
        store_session src peer
          (published (
            forward_inbound_frames sorted is_open peer.child_id spec.identity.filters now
              (session_of peer data_bytes listener)))
          listener

    unfoldable handle_packet : List ℕ → ℕ → ℕ → Listener → Listener
    unfolding admit_new_peer receive
    handle_packet data_bytes src now listener =
        if is_some (Table.get src listener.peers)
        then receive data_bytes src now (Table.get src listener.peers) listener
        else (let (admitted, next) = admit_new_peer src now listener in
            if admitted then receive data_bytes src now (Table.get src next.peers) next else next)
