-- ===== src/Endpoint/Reconnect/Tcp.antt =====
-- The loop of the `tcpc:` endpoint: src/endpoint/tcp/client.rs.
use mavlink_router_rs.Base.{ℕ, ◌≡◌, refl, Bool, true, false, List, [], ◌∷◌, Name}
use mavlink_router_rs.Base.Results.{All}
use mavlink_router_rs.Endpoint.Backoff as Backoff
use mavlink_router_rs.Endpoint.Backoff.{reset, next_delay}
use mavlink_router_rs.Endpoint.Filters.{IdentityFlags}
use mavlink_router_rs.Endpoint.Reconnect.{
  DialOutcome, connected, cancelled, failed, Task, dialing, backing_off, goes_to, with_state, stop,
  begin_session,
}
use mavlink_router_rs.Endpoint.Session.{SessionOutcome, terminated, disconnected}
use mavlink_router_rs.Endpoint.Stats.{reconnecting}
use mavlink_router_rs.Endpoint.TxQueue.{TxQueue, ArrayQueue, Shared}
use mavlink_router_rs.Spec.Kinds.{TcpClientEndpoint}
use mavlink_router_rs.UdpClient.{default_reconnect_initial_ms, default_reconnect_max_ms}

pub record TcpClientSpec : Type 0 where
  pub host : Name
  pub port : ℕ
  pub endpoint_id : ℕ
  pub name : Name
  pub reconnect_initial_ms : ℕ
  pub reconnect_max_ms : ℕ
  pub identity : IdentityFlags

unfoldable pub from_endpoint : TcpClientEndpoint → (endpoint_id : ℕ) → (name : Name) → TcpClientSpec
from_endpoint e endpoint_id name = record {
  host = e.host;
  port = e.port;
  endpoint_id = endpoint_id;
  name = name;
  reconnect_initial_ms = default_reconnect_initial_ms;
  reconnect_max_ms = default_reconnect_max_ms;
  identity = e.identity;
}

-- `connect_one` for each address in turn, until one answers or the task is cancelled.
unfoldable pub dial_with_dns : List DialOutcome → DialOutcome
dial_with_dns [] = failed
dial_with_dns (connected ∷ rest) = connected
dial_with_dns (cancelled ∷ rest) = cancelled
dial_with_dns (failed ∷ rest) = dial_with_dns rest

-- The dialling fails only when every address has failed.
dial_with_dns_failed :
    (answers : List DialOutcome)
    → dial_with_dns answers ≡ failed
    → All (λ (outcome : DialOutcome). outcome ≡ failed) answers
unfolding dial_with_dns
dial_with_dns_failed [] e = tt
dial_with_dns_failed (connected ∷ rest) e = absurd cc
dial_with_dns_failed (cancelled ∷ rest) e = absurd cc
dial_with_dns_failed (failed ∷ rest) e = (refl, dial_with_dns_failed rest e)

-- `run_inner` before its loop; `nanos` is the clock.
unfoldable pub start : {aq : ArrayQueue} → TcpClientSpec → (nanos : ℕ) → Shared aq → Task aq
unfolding Backoff.new
start spec nanos shared = record {
  phase = dialing;
  backoff = Backoff.new nanos spec.reconnect_initial_ms spec.reconnect_max_ms;
  shared = shared;
}

module _ (aq : ArrayQueue) (queue : TxQueue) (stats : ℕ) where
  -- After `dial_with_dns`.
  unfoldable pub after_dial : DialOutcome → Task aq → Task aq
  unfolding reset
  after_dial connected task =
      begin_session aq queue stats (record task { backoff = reset task.backoff })
  after_dial cancelled task = stop aq queue stats task
  after_dial failed task =
      let (delay, backoff) = next_delay task.backoff in
      goes_to aq queue stats (backing_off delay) (record task { backoff = backoff })

  -- After a sleep: whether it came to its end.
  unfoldable pub after_sleep : Bool → Task aq → Task aq
  after_sleep true task = goes_to aq queue stats dialing task
  after_sleep false task = stop aq queue stats task

  unfoldable pub after_session : SessionOutcome → Task aq → Task aq
  after_session terminated task = stop aq queue stats task
  after_session disconnected task =
      goes_to aq queue stats dialing (with_state aq queue stats reconnecting task)
