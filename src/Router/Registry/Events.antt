-- ===== src/Router/Registry/Events.antt =====
-- The handlers of lifecycle events in src/router/mod.rs. Logging is left out.
use mavlink_router_rs.Base.{
  ℕ, ◌+◌, ◌*◌, ◌%◌, ◌^◌, Option, none, some, List, [], ◌∷◌, ◌++◌, Name, nat_eq, name_key,
}
use mavlink_router_rs.Base.Table
use mavlink_router_rs.Endpoint.Stats.{store_state}
use mavlink_router_rs.Endpoint.TxQueue.{ArrayQueue, Bytes, Shared, on_stats}
use mavlink_router_rs.Router.Dedup
use mavlink_router_rs.Router.Dedup.{DedupWindow, check_and_insert}
use mavlink_router_rs.Router.Learn
use mavlink_router_rs.Router.Learn.{LearnTable, is_some, touch, len}
use mavlink_router_rs.Router.Registry.State.{
  EndpointEvent, PeerRemovalReason, RegisteredEndpoint, Routable, RoutableState, Router, StatsEvent,
  TrySend, channel_closed, channel_full, endpoint_added, final_state, finalize, group_of,
  join_group, learn_capacity, leave_group, peer_added, peer_removed, register, sent_on,
}

-- `Duration::from_millis`.
abbrev pub nanos_per_milli : ℕ
nanos_per_milli = 1000000

module _ (aq : ArrayQueue) (try_send : List StatsEvent → StatsEvent → TrySend)
    (hash : Bytes → ℕ) where
  -- The dedup window keeps its time in nanoseconds.
  unfoldable pub new : ℕ → ℕ → Shared aq → Router aq
  new dedup_ms dedup_window_capacity shared = record {
    routing = [];
    groups = [];
    dedup = Dedup.new (dedup_ms * nanos_per_milli) dedup_window_capacity;
    offered = [];
    sent = [];
    stats_events_dropped = 0;
    shared = shared;
  }

  unfoldable pub forward_stats : StatsEvent → Router aq → Router aq
  forward_stats event router =
      let tried : Router aq = record router { offered = router.offered ++ event ∷ [] } in
      elim (try_send router.offered event) [
        | sent_on ↦ record tried { sent = router.sent ++ event ∷ [] }
        | channel_full ↦ record tried {
          stats_events_dropped = (router.stats_events_dropped + 1) % 2 ^ 64;
        }
        | channel_closed ↦ tried
      ]

  unfoldable pub build_routable_state : Routable → Router aq → RoutableState × Router aq
  unfolding join_group
  build_routable_state payload router = (
    record {
      tx_queue = payload.tx_queue;
      identity = payload.identity;
      endpoint_name = payload.endpoint_name;
      learn = Learn.new learn_capacity;
    },
    record router { groups = join_group router.groups payload.identity.group },
  )

  unfoldable pub register_routable : ℕ → Name → ℕ → Option RoutableState → Router aq → Router aq
  unfolding forward_stats
  register_routable id name stats routable_state router =
      let entry : RegisteredEndpoint = record {
        name = name;
        stats = stats;
        routable = routable_state;
      } in
      forward_stats (register id name stats (is_some routable_state))
        (record router { routing = Table.insert id entry router.routing })

  -- A peer that is removed leaves its group, and its last state is stored.
  unfoldable pub remove_peer :
      ℕ → PeerRemovalReason → Option RegisteredEndpoint → Router aq → Router aq
  unfolding leave_group
  remove_peer child_id reason none router = router
  remove_peer child_id reason (some entry) router = record router {
    routing = Table.remove child_id router.routing;
    groups = leave_group router.groups (group_of entry.routable);
    shared = on_stats aq entry.stats (store_state (final_state reason)) router.shared;
  }

  unfoldable pub handle_event : EndpointEvent → Router aq → Router aq
  unfolding build_routable_state register_routable remove_peer forward_stats
  handle_event (endpoint_added id name stats none) router =
      register_routable id name stats none router
  handle_event (endpoint_added id name stats (some payload)) router =
      let (state, joined) = build_routable_state payload router in
      register_routable id name stats (some state) joined
  handle_event (peer_added parent_id child_id name stats routable) router =
      let (state, joined) = build_routable_state routable router in
      register_routable child_id name stats (some state) joined
  handle_event (peer_removed parent_id child_id reason) router =
      forward_stats (finalize child_id)
        (remove_peer child_id reason (Table.get child_id router.routing) router)
