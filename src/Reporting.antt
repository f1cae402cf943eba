-- ===== src/Reporting.antt =====
-- The stats task: src/stats.rs. It mirrors the registry from the router's events, and queues one
-- line per endpoint. The time stamp, the rendering of a line and the writer are of libraries: they
-- enter as arguments.
pub mod Laws
mod Tests
use mavlink_router_rs.Base.{
  ℕ, zero, suc, ◌+◌, ◌-◌, Bool, true, false, not, Option, none, some, List, [], ◌∷◌, ◌++◌, ltb, leb,
  ◌==◌, if◌then◌else◌, length, Name, nat_eq, saturating_add,
}
use mavlink_router_rs.Base.Table
use mavlink_router_rs.Endpoint.Stats.{
  EndpointState, EndpointStats, reconnecting, connected, idle, down, unknown, load_state,
}
use mavlink_router_rs.Router.Registry.State.{StatsEvent, register, finalize}

-- The counters of an endpoint are read through its handle.
pub record RegisteredEndpoint : Type 0 where
  pub name : Name
  pub stats : ℕ
  pub routable : Bool

pub data StatsLine : Type 0 where
  routable_line :
      (ts endpoint state : Name) (rx_frames tx_frames rx_bytes tx_bytes dropped_tx crc_errors : ℕ)
      (resync_bytes rx_lost_est in_filter_drops out_filter_drops dedup_drops learn_entries : ℕ)
      → StatsLine
  non_routable : (ts endpoint state : Name) → StatsLine

pub record QueueEntry : Type 0 where
  pub line : StatsLine
  pub synthetic : Bool

-- The task: its registry, its queue and its counters of drops.
pub record Reporter : Type 0 where
  pub registry : List (ℕ × RegisteredEndpoint)
  pub queue : List QueueEntry
  pub total_dropped : ℕ
  pub last_warned_dropped : ℕ

-- The labels, as their bytes.
unfoldable state_label : EndpointState → Name
state_label reconnecting = 114 ∷ 101 ∷ 99 ∷ 111 ∷ 110 ∷ 110 ∷ 101 ∷ 99 ∷ 116 ∷ 105 ∷ 110 ∷ 103 ∷ []
state_label connected = 99 ∷ 111 ∷ 110 ∷ 110 ∷ 101 ∷ 99 ∷ 116 ∷ 101 ∷ 100 ∷ []
state_label idle = 105 ∷ 100 ∷ 108 ∷ 101 ∷ []
state_label down = 100 ∷ 111 ∷ 119 ∷ 110 ∷ []
state_label unknown = 117 ∷ 110 ∷ 107 ∷ 110 ∷ 111 ∷ 119 ∷ 110 ∷ []

unfoldable pub build_line : Name → EndpointStats → Name → Bool → StatsLine
unfolding state_label
build_line name stats ts false = non_routable ts name (state_label (load_state stats))
build_line name stats ts true =
    routable_line ts name (state_label (load_state stats)) stats.rx_frames stats.tx_frames
      stats.rx_bytes stats.tx_bytes stats.dropped_tx stats.crc_errors stats.resync_bytes
      stats.rx_lost_est stats.in_filter_drops stats.out_filter_drops stats.dedup_drops
      stats.learn_entries

-- `VecDeque::pop_front`.
abbrev pop_front : List QueueEntry → List QueueEntry
pop_front [] = []
pop_front (entry ∷ queue) = queue

abbrev push_back : StatsLine → Bool → List QueueEntry → List QueueEntry
push_back line synthetic queue = queue ++ record { line = line; synthetic = synthetic } ∷ []

-- The queue without its first regular line, if it has one: `position` and `remove`.
abbrev pub cons_some : QueueEntry → Option (List QueueEntry) → Option (List QueueEntry)
cons_some entry none = none
cons_some entry (some queue) = some (entry ∷ queue)

unfoldable pub remove_regular : List QueueEntry → Option (List QueueEntry)
remove_regular [] = none
remove_regular (entry ∷ queue) =
    let rest = cons_some entry (remove_regular queue) in
    if not entry.synthetic then some queue else rest

-- The queue and the total of dropped lines after a regular line.
unfoldable pub enqueue_regular : ℕ → StatsLine → List QueueEntry → ℕ → List QueueEntry × ℕ
enqueue_regular queue_capacity line queue total_dropped =
    if queue_capacity == 0
    then (queue, saturating_add total_dropped 1)
    else if leb queue_capacity (length queue)
    then (push_back line false (pop_front queue), saturating_add total_dropped 1)
    else (push_back line false queue, total_dropped)

-- Room in a full queue: the oldest regular line goes, or else the oldest line.
unfoldable pub make_room : List QueueEntry → ℕ → List QueueEntry × ℕ
unfolding remove_regular
make_room queue total_dropped = elim (remove_regular queue) [
  | some shorter ↦ (shorter, saturating_add total_dropped 1)
  | none ↦ elim queue [
    | [] ↦ ([], total_dropped)
    | entry ∷ rest ↦ (rest, saturating_add total_dropped 1)
  ]
]

unfoldable pub enqueue_synthetic : ℕ → StatsLine → List QueueEntry → ℕ → List QueueEntry × ℕ
unfolding make_room
enqueue_synthetic queue_capacity line queue total_dropped =
    if queue_capacity == 0
    then (queue, saturating_add total_dropped 1)
    else if leb queue_capacity (length queue)
    then (let (roomy, dropped) = make_room queue total_dropped in
        (push_back line true roomy, dropped))
    else (push_back line true queue, total_dropped)

module _ (stats : ℕ → EndpointStats) (queue_capacity : ℕ) (ts : Name) where
  unfoldable pub handle_event : Bool → StatsEvent → Reporter → Reporter
  unfolding enqueue_synthetic build_line
  handle_event emit_lines (register id name handle routable) reporter = record reporter {
    registry =
        Table.insert id (record { name = name; stats = handle; routable = routable })
          reporter.registry;
  }
  handle_event emit_lines (finalize id) reporter = elim (Table.get id reporter.registry) [
    | none ↦ reporter
    | some entry ↦
        let removed = record reporter { registry = Table.remove id reporter.registry } in
        if not emit_lines
        then removed
        else let line = build_line entry.name (stats entry.stats) ts entry.routable in
          let (queue, total) =
            enqueue_synthetic queue_capacity line reporter.queue reporter.total_dropped in
          record removed { queue = queue; total_dropped = total }
  ]

  -- The loop of `emit_interval_lines` over the registry.
  unfoldable pub emit_lines_of :
      List (ℕ × RegisteredEndpoint) → List QueueEntry → ℕ → List QueueEntry × ℕ
  unfolding enqueue_regular build_line
  emit_lines_of [] queue total = (queue, total)
  emit_lines_of ((id, entry) ∷ registry) queue total =
      let line = build_line entry.name (stats entry.stats) ts entry.routable in
      let (longer, dropped) = enqueue_regular queue_capacity line queue total in
      emit_lines_of registry longer dropped

  unfoldable pub emit_interval_lines : Reporter → Reporter
  unfolding emit_lines_of
  emit_interval_lines reporter =
      let (queue, total) = emit_lines_of reporter.registry reporter.queue reporter.total_dropped in
      record reporter { queue = queue; total_dropped = total }

-- What is warned of is remembered, so that it is not warned of again.
unfoldable warn_on_new_drops : Reporter → Reporter
warn_on_new_drops reporter =
    if ltb reporter.last_warned_dropped reporter.total_dropped
    then record reporter { last_warned_dropped = reporter.total_dropped }
    else reporter

-- The result of rendering a line and writing it.
pub data WriteResult : Type 0 where
  line_written not_rendered broken_pipe write_error : WriteResult

abbrev written_by : WriteResult → StatsLine → List StatsLine → List StatsLine
written_by line_written line written = written ++ line ∷ []
written_by _ line written = written

abbrev breaks : WriteResult → Bool
breaks broken_pipe = true
breaks _ = false

-- `drain_queue`: the lines written and whether the pipe is broken. `write` tells the result for a
-- line after those that were written.
unfoldable drain_queue :
    (List StatsLine → StatsLine → WriteResult)
    → List QueueEntry
    → List StatsLine
    → Bool
    → List StatsLine × Bool
drain_queue write [] written broken = (written, broken)
drain_queue write (entry ∷ queue) written true = drain_queue write queue written true
drain_queue write (entry ∷ queue) written false =
    let result = write written entry.line in
    drain_queue write queue (written_by result entry.line written) (breaks result)
