-- ===== src/Endpoint/Reconnect/Fresh.antt =====
-- A session writes no frame that is older than it, whatever order the events come in.
use mavlink_router_rs.Base.{
  ℕ, ◌≡◌, sym, ap, ◌∙◌, List, [], ◌∷◌, ◌++◌, append_assoc, take, drop, take-append-drop,
}
use mavlink_router_rs.Endpoint.Reconnect.{Task, dialing, in_session}
use mavlink_router_rs.Endpoint.Reconnect.Steps.{
  Event, popped, pushed_since, Transport, waiting, HasBounded, Step, dials, wakes, ends, pushes,
  pops, Run, still, goes,
}
use mavlink_router_rs.Endpoint.Reconnect.Transports.{Loop, transport}
use mavlink_router_rs.Endpoint.TxQueue.{TxQueue, Bytes, ArrayQueue, push, pop}
use mavlink_router_rs.Endpoint.TxQueue.Laws.{overflow, push-waiting, pop_lem}

module _ (aq : ArrayQueue) (queue : TxQueue) (t : Transport aq queue) where
  -- In a session the queue holds the newest of the frames that were pushed since it began.
  record IsFresh (events : List Event) (task : Task aq) : Type 0 where
    within : HasBounded aq queue task
    newest :
        task.phase ≡ in_session
        → (older : List Bytes) × pushed_since events ≡ older ++ waiting aq queue task

  push-newest :
      (events : List Event) (frame : Bytes) (task : Task aq)
      → HasBounded aq queue task
      → ((older : List Bytes) × pushed_since events ≡ older ++ waiting aq queue task)
      → (older : List Bytes) × pushed_since events ++ frame ∷ []
          ≡ older ++ aq.contents ((push aq queue frame task.shared).queues queue.inner)
  push-newest events frame task b (older, e) =
      let k = overflow aq (task.shared.queues queue.inner) in
      let all = waiting aq queue task ++ frame ∷ [] in
      (
        older ++ take k all,
        ap (λ (l : List Bytes). l ++ frame ∷ []) e
            ∙ append_assoc older (waiting aq queue task) (frame ∷ [])
            ∙ ap (λ (l : List Bytes). older ++ l) (sym (take-append-drop k all))
            ∙ sym (append_assoc older (take k all) (drop k all))
            ∙ ap (λ (l : List Bytes). (older ++ take k all) ++ l)
                (sym (push-waiting aq queue frame task.shared b).0),
      )

  Step-IsFresh :
      {events : List Event} {event : Event} {before after : Task aq}
      → IsFresh events before
      → Step aq queue t event before after
      → IsFresh (event ∷ events) after
  Step-IsFresh f (dials outcome task e) =
      let (kept, empty) = t.empty_at_start outcome task f.within in
      record { within = kept; newest = λ h. ([], sym (empty h)) }
  Step-IsFresh f (wakes ended task e) =
      let (kept, out) = t.sleep_leads_out ended task f.within in
      record { within = kept; newest = λ h. absurd (out h) }
  Step-IsFresh f (ends outcome task e) =
      let (kept, out) = t.end_leads_out outcome task f.within in
      record { within = kept; newest = λ h. absurd (out h) }
  Step-IsFresh {events = events} f (pushes frame task) = record {
    within = (push-waiting aq queue frame task.shared f.within).1;
    newest = λ h. push-newest events frame task f.within (f.newest h);
  }
  Step-IsFresh {events = events} f (pops frame task e out) =
      let (next, kept) = pop_lem aq queue frame task.shared f.within out in
      record {
        within = kept;
        newest = λ h.
            let (older, all) = f.newest e in
            (
              older ++ frame ∷ [],
              all
                  ∙ ap (λ (l : List Bytes). older ++ l) next
                  ∙ sym (
                      append_assoc older (frame ∷ [])
                        (aq.contents ((pop aq queue task.shared).0.queues queue.inner))),
            );
      }

  Run-IsFresh :
      {initial : Task aq}
      → HasBounded aq queue initial
      → initial.phase ≡ dialing
      → {events : List Event} {task : Task aq} → Run aq queue t initial events task
      → IsFresh events task
  Run-IsFresh b at_start still = record { within = b; newest = λ h. absurd cc }
  Run-IsFresh b at_start (goes run step) = Step-IsFresh (Run-IsFresh b at_start run) step

  popped-next :
      (events : List Event) (frame : Bytes) (before after : Task aq)
      → IsFresh events before
      → Step aq queue t (popped frame) before after
      → (older : List Bytes) × pushed_since events ≡ older ++ frame ∷ waiting aq queue after
  popped-next events frame before after f (pops _ task e out) =
      let (older, all) = f.newest e in
      (
        older,
        all
            ∙ ap (λ (l : List Bytes). older ++ l)
                (pop_lem aq queue frame task.shared f.within out).0,
      )

  newest_first :
      (initial task : Task aq) (events : List Event) (frame : Bytes)
      → HasBounded aq queue initial
      → initial.phase ≡ dialing
      → Run aq queue t initial (popped frame ∷ events) task
      → (older : List Bytes) × (pushed_since events ≡ older ++ frame ∷ waiting aq queue task)
  newest_first initial task events frame b at_start (goes run step) =
      popped-next events frame _ task (Run-IsFresh b at_start run) step

module _ (aq : ArrayQueue) (queue : TxQueue) (stats : ℕ) where
  -- In a run of the loop of `tcpc:` or of `serial:` that begins at its top, with a queue within its
  -- capacity, a frame that the writer takes was pushed after the last attempt to connect, and what
  -- then waits in the queue are just the frames that were pushed after it, in their order.
  pub Run-popped :
      (loop : Loop) (initial task : Task aq) (events : List Event) (frame : Bytes)
      → HasBounded aq queue initial
      → initial.phase ≡ dialing
      → Run aq queue (transport aq queue stats loop) initial (popped frame ∷ events) task
      → (older : List Bytes) × (pushed_since events ≡ older ++ frame ∷ waiting aq queue task)
  Run-popped loop = newest_first aq queue (transport aq queue stats loop)
