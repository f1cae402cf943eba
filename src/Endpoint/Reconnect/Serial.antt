-- ===== src/Endpoint/Reconnect/Serial.antt =====
-- The loop of the `serial:` endpoint: src/endpoint/serial.rs.
use mavlink_router_rs.Base.{ℕ, Bool, true, false, Name}
use mavlink_router_rs.Endpoint.Filters.{IdentityFlags}
use mavlink_router_rs.Endpoint.Reconnect.{
  DialOutcome, connected, cancelled, failed, Phase, Task, dialing, stopped, backing_off, settling,
  drained, goes_to, with_state, stop, begin_session,
}
use mavlink_router_rs.Endpoint.Session.{SessionOutcome, terminated, disconnected}
use mavlink_router_rs.Endpoint.Stats.{reconnecting}
use mavlink_router_rs.Endpoint.TxQueue.{TxQueue, ArrayQueue}
use mavlink_router_rs.Spec.Kinds.{SerialFlowControl, SerialEndpoint}

pub record SerialSpec : Type 0 where
  pub path : Name
  pub baud : ℕ
  pub flow_control : SerialFlowControl
  pub endpoint_id : ℕ
  pub name : Name
  pub identity : IdentityFlags

unfoldable from_endpoint : SerialEndpoint → (endpoint_id : ℕ) → (name : Name) → SerialSpec
from_endpoint ep endpoint_id name = record {
  path = ep.path;
  baud = ep.baud;
  flow_control = ep.flow_control;
  endpoint_id = endpoint_id;
  name = name;
  identity = ep.identity;
}

abbrev reopen_delay : ℕ
reopen_delay = 1000

module _ (aq : ArrayQueue) (queue : TxQueue) (stats : ℕ) where
  -- After `try_open`.
  unfoldable pub after_open : DialOutcome → Task aq → Task aq
  after_open connected task = begin_session aq queue stats task
  after_open cancelled task = stop aq queue stats task
  after_open failed task = goes_to aq queue stats (backing_off reopen_delay) task

  abbrev pub slept_in : Bool → Phase → Task aq → Task aq
  slept_in true phase task = goes_to aq queue stats dialing task
  slept_in false (settling delay) task = goes_to aq queue stats stopped task
  slept_in false _ task = stop aq queue stats task

  -- After a sleep. One that follows a session ends the task as it is.
  unfoldable pub after_sleep : Bool → Task aq → Task aq
  after_sleep ended task = slept_in ended task.phase task

  unfoldable pub after_session : SessionOutcome → Task aq → Task aq
  after_session terminated task = stop aq queue stats task
  after_session disconnected task =
      goes_to aq queue stats (settling reopen_delay)
        (with_state aq queue stats reconnecting (drained aq queue stats task))
