-- ===== src/Endpoint/Reconnect.antt =====
-- The loops of the endpoints that dial: what `run_inner` of src/endpoint/tcp/client.rs and of
-- src/endpoint/serial.rs share. A loop has one function for each place where it waits, and what the
-- network, the device and the session answer is an argument. A task asks for its cancellation at
-- the top of its loop and while it dials or opens; both are the answer `cancelled`.
pub mod Tcp
pub mod Serial
pub mod Steps
pub mod Fresh
pub mod Transports
pub mod Shown
mod Tests
use mavlink_router_rs.Base.{ℕ}
use mavlink_router_rs.Endpoint.Backoff.{Backoff}
use mavlink_router_rs.Endpoint.Stats as Stats
use mavlink_router_rs.Endpoint.Stats.{store_state}
use mavlink_router_rs.Endpoint.TxQueue.{TxQueue, ArrayQueue, Shared, on_stats, drain_and_discard}

-- `DialOutcome`, and the result of `try_open` under the cancellation.
pub data DialOutcome : Type 0 where
  connected cancelled failed : DialOutcome

-- Where the task waits: for a connection, in a sleep between attempts, in a session, in the sleep
-- that follows a session, or nowhere any more. A delay is in milliseconds.
pub data Phase : Type 0 where
  dialing in_session stopped : Phase
  backing_off settling : (delay : ℕ) → Phase

pub record Task (aq : ArrayQueue) : Type 0 where
  pub phase : Phase
  pub backoff : Backoff
  pub shared : Shared aq

-- The queue of the endpoint, and the handle of its counters.
module _ (aq : ArrayQueue) (queue : TxQueue) (stats : ℕ) where
  unfoldable pub drained : Task aq → Task aq
  drained task = record task { shared = (drain_and_discard aq queue task.shared).0 }

  unfoldable pub goes_to : Phase → Task aq → Task aq
  goes_to phase task = record task { phase = phase }

  unfoldable pub with_state : Stats.EndpointState → Task aq → Task aq
  with_state state task = record task { shared = on_stats aq stats (store_state state) task.shared }

  abbrev pub stop : Task aq → Task aq
  stop task = goes_to stopped (drained task)

  -- The queue is emptied before the session begins.
  abbrev pub begin_session : Task aq → Task aq
  begin_session task = goes_to in_session (with_state Stats.connected (drained task))
