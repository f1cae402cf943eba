-- ===== src/UdpServer/Tests.antt =====
-- Runs of the peer table of a listener for two peers.
use mavlink_router_rs.Base.{
  ℕ, ◌*◌, ◌≡◌, refl, Bool, true, List, [], ◌∷◌, none, arith, if◌then◌else◌, nat_eq,
}
use mavlink_router_rs.Base.Entries.{min_by_key}
use mavlink_router_rs.Base.Table
use mavlink_router_rs.Endpoint.Filters.{plain}
use mavlink_router_rs.Endpoint.SeqTracker
use mavlink_router_rs.Endpoint.Stats as Stats
use mavlink_router_rs.Endpoint.Stats.{connected, no_counters}
use mavlink_router_rs.Router.Registry.State.{EndpointEvent}
use mavlink_router_rs.UdpServer.{
  PeerEntry, UdpServerSpec, Listener, SocketAddr, v4_addr, admit_new_peer, reap_idle_peers, seen,
}
use mavlink_router_rs.UdpServer.Admission.{IsOldest, sighting, sighting_after, admit_new_peer-get}
use mavlink_router_rs.UdpServer.Laws.{IsValid, silent, reap_idle_peers-get}

abbrev spec : UdpServerSpec
spec = record {
  parent_id = 0;
  parent_name = 117 ∷ [];
  idle_secs = 60;
  peer_capacity = 2;
  identity = plain;
}

abbrev always : List EndpointEvent → Bool
always events = true

abbrev address : ℕ → SocketAddr
address addr = v4_addr (addr ∷ []) (addr ∷ [])

abbrev peer : ℕ → ℕ → PeerEntry
peer id time = record {
  child_id = id;
  framer = record { buf = []; resync_bytes = 0; crc_errors = 0 };
  last_seen = time;
  framer_counters = no_counters;
  seq_tracker = SeqTracker.new 32;
}

-- The table is full; the peer at 10 was seen at 5, the peer at 11 at 90.
abbrev two_peers : Listener
two_peers = record {
  peers = (10, peer 1 5) ∷ (11, peer 2 90) ∷ [];
  next_id = 3;
  stats = λ handle. Stats.new connected;
  events = [];
  sent = [];
  cancelled = [];
}

two_peers-IsValid : IsValid spec two_peers
unfolding Table.get
two_peers-IsValid = record {
  positive = omega arith;
  unique = (refl, (refl, tt));
  bounded = omega arith;
}

admit_new_peer-get_example :
    ((admit_new_peer spec always address 12 100 two_peers).0 ≡ true)
    × (sighting (Table.get 12 (admit_new_peer spec always address 12 100 two_peers).1.peers)
        ≡ sighting_after spec always address 12 100 12 two_peers)
    × IsOldest (min_by_key seen two_peers.peers) (Table.get 12 two_peers.peers)
    × IsValid spec (admit_new_peer spec always address 12 100 two_peers).1
admit_new_peer-get_example =
    admit_new_peer-get spec always address 12 100 12 two_peers two_peers-IsValid

-- A minute and more after the first of the peers was seen.
abbrev later : ℕ
later = 60000000010

reap_idle_peers-get_example :
    Table.get 10 (reap_idle_peers spec always address later two_peers).peers ≡ (
      if silent later (60 * 1000000000) (Table.get 10 two_peers.peers)
      then none
      else Table.get 10 two_peers.peers)
unfolding Table.get
reap_idle_peers-get_example =
    reap_idle_peers-get spec always address later 10 two_peers (refl, (refl, tt))
