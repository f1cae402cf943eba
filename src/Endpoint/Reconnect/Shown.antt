-- ===== src/Endpoint/Reconnect/Shown.antt =====
-- What the counters of an endpoint that dials say of its state, whatever order the events come in.
use mavlink_router_rs.Base.{
  ℕ, ◌≡◌, refl, sym, subst, ap, ◌∙◌, Bool, true, false, Option, some, none, List, ◌==◌, ==_iff,
  Bool-cases, inl, inr,
}
use mavlink_router_rs.Endpoint.Reconnect.{
  DialOutcome, connected, cancelled, failed, Phase, Task, dialing, in_session, stopped, backing_off,
  settling, goes_to, with_state,
}
use mavlink_router_rs.Endpoint.Reconnect.Serial as Serial
use mavlink_router_rs.Endpoint.Reconnect.Steps.{
  Event, IsAsleep, between_attempts, after_session, Step, dials, wakes, ends, pushes, pops, Run,
  still, goes,
}
use mavlink_router_rs.Endpoint.Reconnect.Tcp as Tcp
use mavlink_router_rs.Endpoint.Reconnect.Transports.{Loop, tcp_client, serial_device, transport}
use mavlink_router_rs.Endpoint.Session.{SessionOutcome, terminated, disconnected}
use mavlink_router_rs.Endpoint.Stats as Stats
use mavlink_router_rs.Endpoint.Stats.{
  EndpointStats, EndpointState, reconnecting, load_state, store_state, load_state-store_state,
}
use mavlink_router_rs.Endpoint.TxQueue.{
  TxQueue, Bytes, ArrayQueue, Shared, dropped, on_stats, push, push_queue, pop,
}

-- The state that belongs to a phase. The task leaves what stands there when it stops.
abbrev pub IsShown : Phase → EndpointStats → Type 0
IsShown in_session stats = load_state stats ≡ Stats.connected
IsShown stopped stats = Unit
IsShown dialing stats = load_state stats ≡ reconnecting
IsShown (backing_off delay) stats = load_state stats ≡ reconnecting
IsShown (settling delay) stats = load_state stats ≡ reconnecting

IsShown-cong :
    (phase : Phase) (stats stats' : EndpointStats)
    → load_state stats' ≡ load_state stats
    → IsShown phase stats
    → IsShown phase stats'
IsShown-cong in_session stats stats' e h = e ∙ h
IsShown-cong stopped stats stats' e h = tt
IsShown-cong dialing stats stats' e h = e ∙ h
IsShown-cong (backing_off delay) stats stats' e h = e ∙ h
IsShown-cong (settling delay) stats stats' e h = e ∙ h

asleep-reconnecting :
    (phase : Phase) (stats : EndpointStats)
    → IsAsleep phase
    → IsShown phase stats
    → load_state stats ≡ reconnecting
asleep-reconnecting _ stats between_attempts h = h
asleep-reconnecting _ stats after_session h = h

module _ (aq : ArrayQueue) (handle : ℕ) where
  on_stats-dropped :
      (k count : ℕ) (shared : Shared aq)
      → load_state ((on_stats aq k (dropped aq count) shared).stats handle)
        ≡ load_state (shared.stats handle)
  unfolding on_stats load_state
  on_stats-dropped k count shared = elim (Bool-cases (k == handle)) [
    | inl same ↦ rw same (ap (λ (h : ℕ). load_state (shared.stats h)) ((==_iff k handle).0 same))
    | inr other ↦ rw other refl
  ]

  on_stats-stored :
      (state : EndpointState) (shared : Shared aq)
      → load_state ((on_stats aq handle (store_state state) shared).stats handle) ≡ state
  unfolding on_stats
  on_stats-stored state shared =
      rw ((==_iff handle handle).1 refl) (load_state-store_state state (shared.stats handle))

  module _ (queue : TxQueue) where
    push_queue-state :
        (r : aq.Queue × Option Bytes) (shared : Shared aq)
        → load_state ((push_queue aq queue r shared).stats handle)
          ≡ load_state (shared.stats handle)
    unfolding push_queue on_stats
    push_queue-state (q, none) shared = refl
    push_queue-state (q, some oldest) shared = on_stats-dropped queue.stats 1 shared

    module _ (task : Task aq) where
      dial-IsShown :
          (loop : Loop) (outcome : DialOutcome)
          → load_state (task.shared.stats handle) ≡ reconnecting
          → let next = (transport aq queue handle loop).after_dial outcome task in
            IsShown next.phase (next.shared.stats handle)
      unfolding Tcp.after_dial Serial.after_open goes_to with_state
      dial-IsShown tcp_client connected h = on_stats-stored Stats.connected _
      dial-IsShown tcp_client cancelled h = tt
      dial-IsShown tcp_client failed h = h
      dial-IsShown serial_device connected h = on_stats-stored Stats.connected _
      dial-IsShown serial_device cancelled h = tt
      dial-IsShown serial_device failed h = h

      end-IsShown :
          (loop : Loop) (outcome : SessionOutcome)
          → let next = (transport aq queue handle loop).after_end outcome task in
            IsShown next.phase (next.shared.stats handle)
      unfolding Tcp.after_session Serial.after_session goes_to with_state
      end-IsShown tcp_client terminated = tt
      end-IsShown tcp_client disconnected = on_stats-stored reconnecting _
      end-IsShown serial_device terminated = tt
      end-IsShown serial_device disconnected = on_stats-stored reconnecting _

      slept_in-IsShown :
          (ended : Bool) (phase : Phase)
          → load_state (task.shared.stats handle) ≡ reconnecting
          → let next = Serial.slept_in aq queue handle ended phase task in
            IsShown next.phase (next.shared.stats handle)
      unfolding goes_to
      slept_in-IsShown true phase h = h
      slept_in-IsShown false dialing h = tt
      slept_in-IsShown false in_session h = tt
      slept_in-IsShown false stopped h = tt
      slept_in-IsShown false (backing_off delay) h = tt
      slept_in-IsShown false (settling delay) h = tt

      sleep-IsShown :
          (loop : Loop) (ended : Bool)
          → load_state (task.shared.stats handle) ≡ reconnecting
          → let next = (transport aq queue handle loop).after_sleep ended task in
            IsShown next.phase (next.shared.stats handle)
      unfolding Tcp.after_sleep Serial.after_sleep goes_to
      sleep-IsShown tcp_client true h = h
      sleep-IsShown tcp_client false h = tt
      sleep-IsShown serial_device ended h = slept_in-IsShown ended task.phase h

    Step-IsShown :
        (loop : Loop) {event : Event} {before after : Task aq}
        → Step aq queue (transport aq queue handle loop) event before after
        → IsShown before.phase (before.shared.stats handle)
        → IsShown after.phase (after.shared.stats handle)
    unfolding push pop
    Step-IsShown loop (dials outcome task e) h =
        dial-IsShown task loop outcome
          (subst (λ (p : Phase). IsShown p (task.shared.stats handle)) e h)
    Step-IsShown loop (wakes ended task asleep) h =
        sleep-IsShown task loop ended
          (asleep-reconnecting task.phase (task.shared.stats handle) asleep h)
    Step-IsShown loop (ends outcome task e) h = end-IsShown task loop outcome
    Step-IsShown loop (pushes frame task) h =
        let r = aq.force_push (task.shared.queues queue.inner) frame in
        IsShown-cong task.phase (task.shared.stats handle)
          ((push_queue aq queue r task.shared).stats handle) (push_queue-state r task.shared) h
    Step-IsShown loop (pops frame task e out) h = h

    -- In a run of the loop of `tcpc:` or of `serial:` that begins at its top with counters that say
    -- reconnecting, they say connected for as long as there is a session, and reconnecting while
    -- the task dials or sleeps. Nothing is said of a task that has stopped.
    pub Run-IsShown :
        (loop : Loop) (initial task : Task aq) (events : List Event)
        → initial.phase ≡ dialing
        → load_state (initial.shared.stats handle) ≡ reconnecting
        → Run aq queue (transport aq queue handle loop) initial events task
        → IsShown task.phase (task.shared.stats handle)
    Run-IsShown loop initial _ _ at_start shown still =
        subst (λ (p : Phase). IsShown p (initial.shared.stats handle)) (sym at_start) shown
    Run-IsShown loop initial _ _ at_start shown (goes run step) =
        Step-IsShown loop step (Run-IsShown loop initial _ _ at_start shown run)
