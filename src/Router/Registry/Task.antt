-- ===== src/Router/Registry/Task.antt =====
-- The loop of the router task in src/router/mod.rs, and the sweep after it.
use mavlink_router_rs.Base.{ℕ, List, [], ◌∷◌, nat_eq, name_key}
use mavlink_router_rs.Endpoint.Stats.{down, store_state}
use mavlink_router_rs.Endpoint.TxQueue.{ArrayQueue, Bytes, Shared, on_stats}
use mavlink_router_rs.Router.Registry.State.{
  EndpointEvent, Input, RegisteredEndpoint, Router, StatsEvent, TrySend, event_in, finalize,
  frame_in,
}
use mavlink_router_rs.Router.Registry.Events.{forward_stats, handle_event, new}
use mavlink_router_rs.Router.Registry.Frames.{handle_frame}

module _ (aq : ArrayQueue) (try_send : List StatsEvent → StatsEvent → TrySend)
    (hash : Bytes → ℕ) where
  -- The sweep over the endpoints that are left.
  unfoldable pub sweep : List (ℕ × RegisteredEndpoint) → Router aq → Router aq
  unfolding forward_stats
  sweep [] router = router
  sweep ((id, entry) ∷ routing) router = sweep routing (
      forward_stats aq try_send hash (finalize id)
        (record router { shared = on_stats aq entry.stats (store_state down) router.shared }))

  unfoldable pub shutdown_sweep : Router aq → Router aq
  unfolding sweep
  shutdown_sweep router = sweep router.routing (record router { routing = [] })

  unfoldable pub step : Input → Router aq → Router aq
  unfolding handle_event handle_frame
  step (event_in event) router = handle_event aq try_send hash event router
  step (frame_in frame now) router = handle_frame aq try_send hash frame now router

  -- The loop over what was taken.
  unfoldable pub run : List Input → Router aq → Router aq
  unfolding step
  run [] router = router
  run (input ∷ inputs) router = run inputs (step input router)

  -- The events that are left when the loop ends.
  unfoldable drain_events : List EndpointEvent → Router aq → Router aq
  unfolding handle_event
  drain_events [] router = router
  drain_events (event ∷ events) router =
      drain_events events (handle_event aq try_send hash event router)

  -- `run_inner` as what it does with the inputs taken before the loop ends and the events left then.
  unfoldable pub run_inner : ℕ → ℕ → List Input → List EndpointEvent → Shared aq → Router aq
  unfolding new run drain_events shutdown_sweep
  run_inner dedup_ms dedup_window_capacity inputs late shared =
      shutdown_sweep (
        drain_events late (run inputs (new aq try_send hash dedup_ms dedup_window_capacity shared)))
