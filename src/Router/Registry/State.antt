-- ===== src/Router/Registry/State.antt =====
-- The state of the router task, and what it is told: the types of src/router/mod.rs, of
-- src/endpoint/events.rs and of the events in src/stats.rs. The channel to the stats task is of the
-- crate tokio: it enters as the outcome of `try_send`.
use mavlink_router_rs.Base.{ℕ, Bool, Option, none, some, List, Name, nat_eq, name_key}
use mavlink_router_rs.Base.Table
use mavlink_router_rs.Endpoint.Filters.{IdentityFlags}
use mavlink_router_rs.Endpoint.Stats.{EndpointState, EndpointStats, idle, down, fetch_add}
use mavlink_router_rs.Endpoint.TxQueue.{ArrayQueue, Bytes, TxQueue, Shared}
use mavlink_router_rs.Mavlink.Frame.{ParsedHeader}
use mavlink_router_rs.Router.Dedup.{DedupWindow}
use mavlink_router_rs.Router.Group.{GroupLearn, GroupRegistry, join, leave}
use mavlink_router_rs.Router.Learn.{LearnTable}

abbrev pub learn_capacity : ℕ
learn_capacity = 32

pub record RoutableState : Type 0 where
  pub tx_queue : TxQueue
  pub identity : IdentityFlags
  pub endpoint_name : Name
  pub learn : LearnTable

-- `stats` is the handle of the counters.
pub record RegisteredEndpoint : Type 0 where
  pub name : Name
  pub stats : ℕ
  pub routable : Option RoutableState

pub record Routable : Type 0 where
  pub tx_queue : TxQueue
  pub identity : IdentityFlags
  pub endpoint_name : Name

pub data PeerRemovalReason : Type 0 where
  idle_peer lru_evicted disconnected listener_shutdown : PeerRemovalReason

pub data EndpointEvent : Type 0 where
  endpoint_added : (id : ℕ) (name : Name) (stats : ℕ) (routable : Option Routable) → EndpointEvent
  peer_added :
      (parent_id child_id : ℕ) (name : Name) (stats : ℕ) (routable : Routable) → EndpointEvent
  peer_removed : (parent_id child_id : ℕ) (reason : PeerRemovalReason) → EndpointEvent

pub record RouterFrame : Type 0 where
  pub endpoint_id : ℕ
  pub frame : Bytes
  pub header : ParsedHeader

pub data StatsEvent : Type 0 where
  register : (id : ℕ) (name : Name) (stats : ℕ) (routable : Bool) → StatsEvent
  finalize : (id : ℕ) → StatsEvent

-- The result of `mpsc::Sender::try_send`.
pub data TrySend : Type 0 where
  sent_on channel_full channel_closed : TrySend

pub data SourceAdmission : Type 0 where
  admitted : (src_endpoint_name : Name) → SourceAdmission
  suppressed : SourceAdmission

-- What the loop of `run_inner` takes next.
pub data Input : Type 0 where
  event_in : (event : EndpointEvent) → Input
  frame_in : (frame : RouterFrame) (now : ℕ) → Input

-- The router, with the store its handles point into. `offered` are the events that it tried to send
-- to the stats task, and `sent` those that the channel took. What the channel answers is a function
-- of what was offered, so every call may have its own answer.
pub record Router (aq : ArrayQueue) : Type 0 where
  pub routing : List (ℕ × RegisteredEndpoint)
  pub groups : GroupRegistry
  pub dedup : DedupWindow
  pub offered : List StatsEvent
  pub sent : List StatsEvent
  pub stats_events_dropped : ℕ
  pub shared : Shared aq

unfoldable pub final_state : PeerRemovalReason → EndpointState
final_state idle_peer = idle
final_state _ = down

unfoldable pub join_group : GroupRegistry → Option Name → GroupRegistry
join_group groups none = groups
join_group groups (some group) = (join groups group learn_capacity).0

unfoldable pub leave_group : GroupRegistry → Option Name → GroupRegistry
leave_group groups none = groups
leave_group groups (some group) = leave groups group

-- The group of a registered endpoint.
abbrev pub group_of : Option RoutableState → Option Name
group_of none = none
group_of (some state) = state.identity.group

-- The learn table that speaks for an endpoint: its own, or that of its group if that is there.
abbrev pub group_learn : Option GroupLearn → Option LearnTable
group_learn none = none
group_learn (some group) = some group.learn

abbrev pub effective_learn : GroupRegistry → RoutableState → Option Name → Option LearnTable
effective_learn groups state none = some state.learn
effective_learn groups state (some name) = group_learn (Table.get name groups)

abbrev pub drop_duplicate : EndpointStats → EndpointStats
drop_duplicate stats = record stats { dedup_drops = fetch_add stats.dedup_drops 1 }

abbrev pub drop_filtered : EndpointStats → EndpointStats
drop_filtered stats = record stats { out_filter_drops = fetch_add stats.out_filter_drops 1 }

abbrev pub learned : ℕ → EndpointStats → EndpointStats
learned count stats = record stats { learn_entries = count }
