-- ===== src/Endpoint/Reconnect/Steps.antt =====
-- The runs of a task that dials and holds a session, with the router and the session at work on its
-- queue: whatever order the events come in, and for every such task.
use mavlink_router_rs.Base.{ℕ, ◌≡◌, Bool, some, List, [], ◌∷◌, ◌++◌}
use mavlink_router_rs.Endpoint.Reconnect.{
  DialOutcome, Phase, dialing, in_session, backing_off, settling, Task,
}
use mavlink_router_rs.Endpoint.Session.{SessionOutcome}
use mavlink_router_rs.Endpoint.TxQueue.{TxQueue, Bytes, ArrayQueue, push, pop}
use mavlink_router_rs.Endpoint.TxQueue.Laws.{IsBounded}

pub data Event : Type 0 where
  attempted : (outcome : DialOutcome) → Event
  slept : (ended : Bool) → Event
  session_over : (outcome : SessionOutcome) → Event
  pushed popped : (frame : Bytes) → Event

-- The frames pushed since the last attempt to connect, the oldest first. The newest event comes
-- first.
abbrev pub pushed_since : List Event → List Bytes
pushed_since [] = []
pushed_since (attempted outcome ∷ events) = []
pushed_since (pushed frame ∷ events) = pushed_since events ++ frame ∷ []
pushed_since (slept ended ∷ events) = pushed_since events
pushed_since (session_over outcome ∷ events) = pushed_since events
pushed_since (popped frame ∷ events) = pushed_since events

pub data IsAsleep : Phase → Type 0 where
  between_attempts : {delay : ℕ} → IsAsleep (backing_off delay)
  after_session : {delay : ℕ} → IsAsleep (settling delay)

module _ (aq : ArrayQueue) (queue : TxQueue) where
  -- The frames that wait for the writer.
  abbrev pub waiting : Task aq → List Bytes
  waiting task = aq.contents (task.shared.queues queue.inner)

  abbrev pub HasBounded : Task aq → Type 0
  HasBounded task = IsBounded aq (task.shared.queues queue.inner)

  -- What a task does with an answer, and what it owes to its queue: a session begins with an empty
  -- queue, and only a connection begins one.
  pub record Transport : Type 0 where
    pub after_dial : DialOutcome → Task aq → Task aq
    pub after_sleep : Bool → Task aq → Task aq
    pub after_end : SessionOutcome → Task aq → Task aq
    pub empty_at_start :
        (outcome : DialOutcome) (task : Task aq)
        → HasBounded task
        → HasBounded (after_dial outcome task)
          × ((after_dial outcome task).phase ≡ in_session → waiting (after_dial outcome task) ≡ [])
    pub sleep_leads_out :
        (ended : Bool) (task : Task aq)
        → HasBounded task
        → HasBounded (after_sleep ended task) × ¬ (after_sleep ended task).phase ≡ in_session
    pub end_leads_out :
        (outcome : SessionOutcome) (task : Task aq)
        → HasBounded task
        → HasBounded (after_end outcome task) × ¬ (after_end outcome task).phase ≡ in_session

  -- One step. The router pushes at any time; the writer pops in a session only.
  pub data Step (t : Transport) : Event → Task aq → Task aq → Type 0 where
    dials :
        (outcome : DialOutcome) (task : Task aq)
        → task.phase ≡ dialing
        → Step t (attempted outcome) task (t.after_dial outcome task)
    wakes :
        (ended : Bool) (task : Task aq)
        → IsAsleep task.phase
        → Step t (slept ended) task (t.after_sleep ended task)
    ends :
        (outcome : SessionOutcome) (task : Task aq)
        → task.phase ≡ in_session
        → Step t (session_over outcome) task (t.after_end outcome task)
    pushes :
        (frame : Bytes) (task : Task aq)
        → Step t (pushed frame) task (record task { shared = push aq queue frame task.shared })
    pops :
        (frame : Bytes) (task : Task aq)
        → task.phase ≡ in_session
        → (pop aq queue task.shared).1 ≡ some frame
        → Step t (popped frame) task (record task { shared = (pop aq queue task.shared).0 })

  pub data Run (t : Transport) (initial : Task aq) : List Event → Task aq → Type 0 where
    still : Run t initial [] initial
    goes :
        {events : List Event} {event : Event} {before after : Task aq}
        → Run t initial events before
        → Step t event before after
        → Run t initial (event ∷ events) after
