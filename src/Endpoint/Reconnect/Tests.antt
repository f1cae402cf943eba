-- ===== src/Endpoint/Reconnect/Tests.antt =====
-- A `tcpc:` endpoint with two stale frames in its queue: it fails to connect, sleeps, connects, and
-- writes what is pushed then.
use mavlink_router_rs.Base.{ℕ, ◌≡◌, refl, true, List, [], ◌∷◌, ◌++◌, arith}
use mavlink_router_rs.Base.Text.{text}
use mavlink_router_rs.Endpoint.Filters.{plain}
use mavlink_router_rs.Spec.Kinds.{TcpClientEndpoint}
use mavlink_router_rs.Endpoint.Reconnect.{connected, failed, Task, drained, goes_to, with_state}
use mavlink_router_rs.Endpoint.Reconnect.Fresh.{Run-popped}
use mavlink_router_rs.Endpoint.Reconnect.Shown.{IsShown, Run-IsShown}
use mavlink_router_rs.Endpoint.Reconnect.Steps.{
  Event, attempted, slept, pushed, popped, pushed_since, between_attempts, waiting, Run, still,
  goes, dials, wakes, pushes, pops,
}
use mavlink_router_rs.Endpoint.Reconnect.Tcp as Tcp
use mavlink_router_rs.Endpoint.Reconnect.Transports.{tcp_client, transport}
use mavlink_router_rs.Endpoint.Stats as Stats
use mavlink_router_rs.Endpoint.Stats.{load_state}
use mavlink_router_rs.Endpoint.TxQueue.{
  TxQueue, on_stats, push, push_queue, pop, drain, drain_and_discard,
}
use mavlink_router_rs.Endpoint.TxQueue.Bounded.{list_queue, force, take_first}

abbrev queue : TxQueue
queue = record { inner = 0; stats = 0 }

abbrev endpoint : TcpClientEndpoint
endpoint = record { host = text "gcs"; port = 5760; identity = plain }

abbrev initial : Task list_queue
initial = Tcp.start (Tcp.from_endpoint endpoint 3 (text "gcs")) 12345 (record {
  queues = λ handle. record { items = (1 ∷ []) ∷ (2 ∷ []) ∷ []; bound = 2 };
  stats = λ handle. Stats.new Stats.reconnecting;
})

abbrev refused : Task list_queue
refused = Tcp.after_dial list_queue queue 0 failed initial

abbrev awake : Task list_queue
awake = Tcp.after_sleep list_queue queue 0 true refused

abbrev in_touch : Task list_queue
in_touch = Tcp.after_dial list_queue queue 0 connected awake

abbrev loaded : Task list_queue
loaded = record in_touch { shared = push list_queue queue (3 ∷ []) in_touch.shared }

abbrev written : Task list_queue
written = record loaded { shared = (pop list_queue queue loaded.shared).0 }

abbrev events : List Event
events = pushed (3 ∷ []) ∷ attempted connected ∷ slept true ∷ attempted failed ∷ []

connecting :
    Run list_queue queue
      (transport list_queue queue 0 tcp_client)
      initial
      (attempted connected ∷ slept true ∷ attempted failed ∷ [])
      in_touch
unfolding Tcp.start Tcp.after_dial Tcp.after_sleep goes_to
connecting =
    goes (goes (goes still (dials failed initial refl)) (wakes true refused between_attempts))
      (dials connected awake refl)

writing :
    Run list_queue queue
      (transport list_queue queue 0 tcp_client)
      initial
      (popped (3 ∷ []) ∷ events)
      written
unfolding Tcp.start Tcp.after_dial Tcp.after_sleep goes_to with_state drained on_stats push
    push_queue pop drain drain_and_discard force take_first
writing = goes (goes connecting (pushes (3 ∷ []) in_touch)) (pops (3 ∷ []) loaded refl refl)

Run-popped_example :
    (older : List (List ℕ)) × (pushed_since events
      ≡ older ++ (3 ∷ []) ∷ waiting list_queue queue written)
unfolding Tcp.start
Run-popped_example =
    Run-popped list_queue queue 0 tcp_client initial written events (3 ∷ [])
      (record { positive = omega arith; bounded = omega arith }) refl writing

Run-IsShown_example : IsShown written.phase (written.shared.stats 0)
unfolding Stats.new Tcp.start load_state
Run-IsShown_example =
    Run-IsShown list_queue 0 queue tcp_client initial written (popped (3 ∷ []) ∷ events) refl refl
      writing
