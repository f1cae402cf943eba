-- ===== src/Router/Registry/Tests.antt =====
-- Runs of the router task over a bounded queue on a list and a stats channel with room.
use mavlink_router_rs.Base.{
  ℕ, ◌-◌, ◌≡◌, refl, List, [], ◌∷◌, none, some, name_key, nat_eq, if◌then◌else◌, ◌==◌, length,
}
use mavlink_router_rs.Base.Table
use mavlink_router_rs.Endpoint.Filters.{plain}
use mavlink_router_rs.Endpoint.Stats as Stats
use mavlink_router_rs.Endpoint.Stats.{EndpointStats, connected, down, idle, load_state}
use mavlink_router_rs.Endpoint.TxQueue.{Bytes, Shared}
use mavlink_router_rs.Endpoint.TxQueue.Bounded.{list_queue}
use mavlink_router_rs.Mavlink.Frame.{NodeId, ParsedHeader, Version, node_key}
use mavlink_router_rs.Router.Decide.{decide, loop_blocked}
use mavlink_router_rs.Router.Dedup
use mavlink_router_rs.Router.Group.Laws.{members}
use mavlink_router_rs.Router.Learn
use mavlink_router_rs.Router.Learn.{LearnTable}
use mavlink_router_rs.Router.Registry.State.{
  RegisteredEndpoint, RoutableState, Router, StatsEvent, TrySend, sent_on, Input, event_in,
  endpoint_added, idle_peer, peer_removed, effective_learn, group_of,
}
use mavlink_router_rs.Router.Registry.Events.{
  new, handle_event, build_routable_state, register_routable, forward_stats,
}
use mavlink_router_rs.Router.Registry.Task.{step, run}
use mavlink_router_rs.Router.Registry.Frames.{
  handle_frame, ingest_source_frame, ingest_routable, learn_source, dispatch_to_destinations,
}
use mavlink_router_rs.Router.Registry.Dispatch.{after, dispatch_to_destinations-queues}
use mavlink_router_rs.Router.Registry.Ingest.{decision_at, ingest-loop_blocked}
use mavlink_router_rs.Router.Registry.Echo.{handle_frame-own_queue}
use mavlink_router_rs.Router.Registry.Lifecycle.{state_after, handle_event-peer_removed}
use mavlink_router_rs.Router.Registry.Members.{run-effective_learn}
use mavlink_router_rs.Router.Registry.Counted.{named}

abbrev roomy : List StatsEvent → StatsEvent → TrySend
roomy sent event = sent_on

abbrev store : Shared list_queue
store = record {
  queues = λ handle. record { items = []; bound = 4 };
  stats = λ handle. Stats.new connected;
}

abbrev endpoint : ℕ → RoutableState
endpoint handle = record {
  tx_queue = record { inner = handle; stats = handle };
  identity = plain;
  endpoint_name = handle ∷ [];
  learn = record { entries = []; capacity = 32 };
}

abbrev entry : ℕ → RegisteredEndpoint
entry handle = record { name = handle ∷ []; stats = handle; routable = some (endpoint handle) }

-- Two endpoints, without deduplication.
abbrev pair : Router list_queue
pair = record {
  routing = (1, entry 1) ∷ (2, entry 2) ∷ [];
  groups = [];
  dedup = record { ring = []; set = []; capacity = 1; ttl = 0 };
  offered = [];
  sent = [];
  stats_events_dropped = 0;
  shared = store;
}

abbrev drone : NodeId
drone = record { sys = 1; comp = 1 }

abbrev heartbeat : ParsedHeader
heartbeat = record {
  version = Version.v1;
  source = drone;
  msgid = 0;
  seq = 0;
  payload_len = 9;
  target_system = none;
  target_component = none;
}

abbrev bytes : Bytes
bytes = 0xFE ∷ 9 ∷ []

dispatch_to_destinations-queues_example :
    (dispatch_to_destinations list_queue roomy length 1 bytes heartbeat (1 ∷ []) pair).shared.queues
      2
    ≡ (if 2 == 1
        then store.queues 2
        else after list_queue roomy length
            (some (decide heartbeat (endpoint 2).learn plain (1 ∷ [])))
            (store.queues 2)
            bytes)
unfolding Table.get
dispatch_to_destinations-queues_example =
    dispatch_to_destinations-queues list_queue roomy length pair 1 bytes heartbeat (1 ∷ []) 2
      (entry 2) (endpoint 2) (endpoint 2).learn (refl, (refl, tt)) refl refl refl refl

ingest-loop_blocked_example :
    decision_at list_queue roomy length
      (ingest_source_frame list_queue roomy length 1 bytes heartbeat 7 pair).1
      1
      heartbeat
      (2 ∷ [])
    ≡ some loop_blocked
unfolding Table.get ingest_source_frame ingest_routable learn_source Dedup.check_and_insert
    Dedup.is_enabled
ingest-loop_blocked_example =
    ingest-loop_blocked list_queue roomy length 1 heartbeat heartbeat 7 (2 ∷ []) refl pair bytes
      (1 ∷ []) refl refl

handle_frame-own_queue_example :
    (handle_frame list_queue roomy length
        (record { endpoint_id = 1; frame = bytes; header = heartbeat })
        7
        pair).shared.queues
      1
    ≡ store.queues 1
handle_frame-own_queue_example =
    handle_frame-own_queue list_queue roomy length
      (record { endpoint_id = 1; frame = bytes; header = heartbeat }) 7 pair 1 refl

abbrev added : Input
added = event_in (
    endpoint_added 1 (1 ∷ []) 1 (
      some (record {
        tx_queue = record { inner = 1; stats = 1 };
        identity = record plain { group = some (99 ∷ []) };
        endpoint_name = 1 ∷ [];
      })))

abbrev member : RoutableState
member = record (endpoint 1) { identity = record plain { group = some (99 ∷ []) } }

run-effective_learn_example :
    (learn : LearnTable) × (effective_learn
        (run list_queue roomy length (added ∷ []) (new list_queue roomy length 0 0 store)).groups
        member
        (some (99 ∷ []))
      ≡ some learn)
unfolding run step handle_event new Table.get Table.insert Table.remove register_routable
    build_routable_state forward_stats Learn.new
run-effective_learn_example =
    run-effective_learn list_queue roomy length 0 0 (added ∷ []) store 1
      (record { name = 1 ∷ []; stats = 1; routable = some member }) member refl refl

-- The peer 2 shares a group with the endpoint 1.
abbrev grouped : Router list_queue
grouped = record pair {
  routing =
      (1, record (entry 1) { routable = some member })
      ∷ (2, record (entry 2) { routable = some member })
      ∷ [];
  groups = (99 ∷ [], record { learn = (endpoint 1).learn; members = 2 }) ∷ [];
}

abbrev without_peer : Router list_queue
without_peer = handle_event list_queue roomy length (peer_removed 0 2 idle_peer) grouped

handle_event-peer_removed_example :
    (Table.get 1 without_peer.routing ≡ (if 2 == 1 then none else Table.get 1 grouped.routing))
    × (members (99 ∷ []) without_peer.groups
        ≡ members (99 ∷ []) grouped.groups
          - (if named (99 ∷ []) (group_of (some member)) then 1 else 0))
    × (load_state (without_peer.shared.stats 2) ≡ state_after idle_peer)
unfolding Table.get
handle_event-peer_removed_example =
    handle_event-peer_removed list_queue roomy length grouped 0 2 idle_peer
      (record (entry 2) { routable = some member }) 1 (99 ∷ []) refl
