-- ===== src/Reporting/Tests.antt =====
-- Runs of the queue of lines.
use mavlink_router_rs.Base.{
  ℕ, newest, ◌-◌, false, ◌+◌, ◌≡◌, ◌≤◌, List, [], ◌∷◌, ◌++◌, true, false, arith, leb, if◌then◌else◌,
  length,
}
use mavlink_router_rs.Endpoint.Stats as Stats
use mavlink_router_rs.Endpoint.Stats.{EndpointStats, connected}
use mavlink_router_rs.Reporting.{
  StatsLine, non_routable, QueueEntry, enqueue_synthetic, Reporter, emit_interval_lines,
}
use mavlink_router_rs.Reporting.Laws.{
  ended, kept, enqueue_synthetic-ended, interval_lines, emit_interval_lines-newest,
}

abbrev line : StatsLine
line = non_routable [] (1 ∷ []) []

-- A full queue with one line on an end.
abbrev lines : List QueueEntry
lines = record { line = line; synthetic = true } ∷ record { line = line; synthetic = false } ∷ []

enqueue_synthetic-ended_example :
    (ended (enqueue_synthetic 2 line lines 0).0
      ≡ (if leb 2 2 then kept lines else ended lines) ++ line ∷ [])
    × (length (enqueue_synthetic 2 line lines 0).0 ≤ 2)
enqueue_synthetic-ended_example = enqueue_synthetic-ended 2 line lines 0 (omega arith) (omega arith)

-- Two endpoints, whose lines take the place of both.
abbrev reporter : Reporter
reporter = record {
  registry =
      (1, record { name = 7 ∷ []; stats = 1; routable = true })
      ∷ (2, record { name = 8 ∷ []; stats = 2; routable = false })
      ∷ [];
  queue = lines;
  total_dropped = 5;
  last_warned_dropped = 0;
}

abbrev stats : ℕ → EndpointStats
stats handle = Stats.new connected

emit_interval_lines-newest_example :
    ((emit_interval_lines stats 2 [] reporter).queue
      ≡ newest 2 (lines ++ interval_lines stats 2 [] reporter.registry))
    × ((emit_interval_lines stats 2 [] reporter).total_dropped ≡ 5 + (2 + 2 - 2))
emit_interval_lines-newest_example =
    emit_interval_lines-newest stats 2 [] reporter (omega arith) (omega arith)
