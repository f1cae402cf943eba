-- ===== src/Endpoint/Reconnect/Transports.antt =====
-- The loops of `tcpc:` and `serial:` keep what a transport owes to its queue.
use mavlink_router_rs.Base.{ℕ, ◌≡◌, Bool, true, false, []}
use mavlink_router_rs.Endpoint.Reconnect.{
  DialOutcome, connected, cancelled, failed, Phase, dialing, in_session, stopped, backing_off,
  settling, Task, drained, goes_to, with_state,
}
use mavlink_router_rs.Endpoint.Reconnect.Serial as Serial
use mavlink_router_rs.Endpoint.Reconnect.Steps.{Transport, waiting, HasBounded}
use mavlink_router_rs.Endpoint.Reconnect.Tcp as Tcp
use mavlink_router_rs.Endpoint.Session.{SessionOutcome, terminated, disconnected}
use mavlink_router_rs.Endpoint.TxQueue.{TxQueue, ArrayQueue, on_stats}
use mavlink_router_rs.Endpoint.TxQueue.Laws.{drain_and_discard-IsBounded}

-- The endpoints that dial.
pub data Loop : Type 0 where
  tcp_client serial_device : Loop

module _ (aq : ArrayQueue) (queue : TxQueue) (stats : ℕ) where
  drained-empty :
      (task : Task aq)
      → HasBounded aq queue task
      → (waiting aq queue (drained aq queue stats task) ≡ [])
        × HasBounded aq queue (drained aq queue stats task)
  unfolding drained
  drained-empty task b = drain_and_discard-IsBounded aq queue task.shared b

  module _ (task : Task aq) (b : HasBounded aq queue task) where
    pub tcp_dial :
        (outcome : DialOutcome)
        → HasBounded aq queue (Tcp.after_dial aq queue stats outcome task)
          × ((Tcp.after_dial aq queue stats outcome task).phase ≡ in_session
              → waiting aq queue (Tcp.after_dial aq queue stats outcome task) ≡ [])
    unfolding Tcp.after_dial goes_to with_state on_stats drained
    tcp_dial connected = let (empty, kept) = drained-empty task b in (kept, λ h. empty)
    tcp_dial cancelled = ((drained-empty task b).1, λ h. cc)
    tcp_dial failed = (b, λ h. cc)

    pub tcp_sleep :
        (ended : Bool)
        → HasBounded aq queue (Tcp.after_sleep aq queue stats ended task)
          × ¬ (Tcp.after_sleep aq queue stats ended task).phase ≡ in_session
    unfolding Tcp.after_sleep goes_to drained
    tcp_sleep true = (b, λ h. cc)
    tcp_sleep false = ((drained-empty task b).1, λ h. cc)

    pub tcp_end :
        (outcome : SessionOutcome)
        → HasBounded aq queue (Tcp.after_session aq queue stats outcome task)
          × ¬ (Tcp.after_session aq queue stats outcome task).phase ≡ in_session
    unfolding Tcp.after_session goes_to with_state on_stats drained
    tcp_end terminated = ((drained-empty task b).1, λ h. cc)
    tcp_end disconnected = (b, λ h. cc)

    pub serial_dial :
        (outcome : DialOutcome)
        → HasBounded aq queue (Serial.after_open aq queue stats outcome task)
          × ((Serial.after_open aq queue stats outcome task).phase ≡ in_session
              → waiting aq queue (Serial.after_open aq queue stats outcome task) ≡ [])
    unfolding Serial.after_open goes_to with_state on_stats drained
    serial_dial connected = let (empty, kept) = drained-empty task b in (kept, λ h. empty)
    serial_dial cancelled = ((drained-empty task b).1, λ h. cc)
    serial_dial failed = (b, λ h. cc)

    slept_in_lem :
        (ended : Bool) (phase : Phase)
        → HasBounded aq queue (Serial.slept_in aq queue stats ended phase task)
          × ¬ (Serial.slept_in aq queue stats ended phase task).phase ≡ in_session
    unfolding goes_to drained
    slept_in_lem true phase = (b, λ h. cc)
    slept_in_lem false (settling delay) = (b, λ h. cc)
    slept_in_lem false dialing = ((drained-empty task b).1, λ h. cc)
    slept_in_lem false in_session = ((drained-empty task b).1, λ h. cc)
    slept_in_lem false stopped = ((drained-empty task b).1, λ h. cc)
    slept_in_lem false (backing_off delay) = ((drained-empty task b).1, λ h. cc)

    pub serial_sleep :
        (ended : Bool)
        → HasBounded aq queue (Serial.after_sleep aq queue stats ended task)
          × ¬ (Serial.after_sleep aq queue stats ended task).phase ≡ in_session
    unfolding Serial.after_sleep
    serial_sleep ended = slept_in_lem ended task.phase

    pub serial_end :
        (outcome : SessionOutcome)
        → HasBounded aq queue (Serial.after_session aq queue stats outcome task)
          × ¬ (Serial.after_session aq queue stats outcome task).phase ≡ in_session
    unfolding Serial.after_session goes_to with_state on_stats drained
    serial_end terminated = ((drained-empty task b).1, λ h. cc)
    serial_end disconnected = ((drained-empty task b).1, λ h. cc)

  abbrev pub tcp : Transport aq queue
  tcp = record {
    after_dial = Tcp.after_dial aq queue stats;
    after_sleep = Tcp.after_sleep aq queue stats;
    after_end = Tcp.after_session aq queue stats;
    empty_at_start = λ outcome task b. tcp_dial task b outcome;
    sleep_leads_out = λ ended task b. tcp_sleep task b ended;
    end_leads_out = λ outcome task b. tcp_end task b outcome;
  }

  abbrev pub serial : Transport aq queue
  serial = record {
    after_dial = Serial.after_open aq queue stats;
    after_sleep = Serial.after_sleep aq queue stats;
    after_end = Serial.after_session aq queue stats;
    empty_at_start = λ outcome task b. serial_dial task b outcome;
    sleep_leads_out = λ ended task b. serial_sleep task b ended;
    end_leads_out = λ outcome task b. serial_end task b outcome;
  }

  abbrev pub transport : Loop → Transport aq queue
  transport tcp_client = tcp
  transport serial_device = serial
