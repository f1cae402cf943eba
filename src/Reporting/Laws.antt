-- ===== src/Reporting/Laws.antt =====
-- The queue of lines keeps its bound, and a line on an endpoint's end outlives the regular lines.
use mavlink_router_rs.Base.{
  ◌-◌, newest, newest-append, length-drop, append_assoc, append-nil, leb→le, ==_iff, Name, ℕ, suc,
  ◌+◌, ◌≡◌, ◌≤◌, ◌<◌, refl, sym, ap, subst, ◌∙◌, Bool, true, false, Option, none, some, List, [],
  ◌∷◌, ◌++◌, arith, leb, leb→lt, ◌==◌, if◌then◌else◌, length, length-append, Bool-cases, inl, inr,
  saturating_add, saturating_add-one, u64_max,
}
use mavlink_router_rs.Endpoint.Stats.{EndpointStats}
use mavlink_router_rs.Reporting.{
  RegisteredEndpoint, Reporter, build_line, emit_lines_of, emit_interval_lines, StatsLine,
  QueueEntry, cons_some, remove_regular, enqueue_regular, make_room, enqueue_synthetic,
}

-- The lines of endpoints that ended, in the order of the queue.
unfoldable pub ended : List QueueEntry → List StatsLine
ended [] = []
ended (entry ∷ queue) = if entry.synthetic then entry.line ∷ ended queue else ended queue

-- Whether there is a regular line.
unfoldable pub has_regular : List QueueEntry → Bool
has_regular [] = false
has_regular (entry ∷ queue) = if entry.synthetic then has_regular queue else true

ended-append : (xs ys : List QueueEntry) → ended (xs ++ ys) ≡ ended xs ++ ended ys
unfolding ended
ended-append [] ys = refl
ended-append (entry ∷ xs) ys = elim (Bool-cases entry.synthetic) [
  | inl is_end ↦ rw is_end (ap (◌∷◌ entry.line) (ended-append xs ys))
  | inr regular ↦ rw regular (ended-append xs ys)
]

abbrev Shorter : List QueueEntry → Option (List QueueEntry) → Type 0
Shorter queue none = has_regular queue ≡ false
Shorter queue (some left) =
    (has_regular queue ≡ true) × (ended left ≡ ended queue) × (suc (length left) ≡ length queue)

remove_regular-Shorter : (queue : List QueueEntry) → Shorter queue (remove_regular queue)
unfolding remove_regular has_regular ended
remove_regular-Shorter [] = refl
remove_regular-Shorter (entry ∷ queue) = elim (Bool-cases entry.synthetic) [
  | inr regular ↦
      let removed : remove_regular (entry ∷ queue) ≡ some queue = rw regular refl in
      subst (Shorter (entry ∷ queue)) (sym removed) (first regular)
  | inl is_end ↦
      let removed : remove_regular (entry ∷ queue) ≡ cons_some entry (remove_regular queue) =
        rw is_end refl in
      subst (Shorter (entry ∷ queue)) (sym removed)
        (go is_end (remove_regular queue) (remove_regular-Shorter queue))
]
  where
    first : entry.synthetic ≡ false → Shorter (entry ∷ queue) (some queue)
    first regular = (rw regular refl, rw regular refl, refl)

    go :
        entry.synthetic ≡ true
        → (o : Option (List QueueEntry)) → Shorter queue o
        → Shorter (entry ∷ queue) (cons_some entry o)
    go is_end none h = rw is_end h
    go is_end (some left) (some_one, same, long) =
        (rw is_end some_one, rw is_end (ap (◌∷◌ entry.line) same), ap suc long)

abbrev tail_of : List StatsLine → List StatsLine
tail_of [] = []
tail_of (line ∷ lines) = lines

-- The lines that a full queue keeps for endpoints that ended.
abbrev pub kept : List QueueEntry → List StatsLine
kept queue = if has_regular queue then ended queue else tail_of (ended queue)

all_ended :
    (entry : QueueEntry) (queue : List QueueEntry)
    → has_regular (entry ∷ queue) ≡ false
    → ended (entry ∷ queue) ≡ entry.line ∷ ended queue
unfolding has_regular ended
all_ended entry queue h = ground arith

make_room_lem :
    (entry : QueueEntry) (rest : List QueueEntry) (total : ℕ)
    → (ended (make_room (entry ∷ rest) total).0 ≡ kept (entry ∷ rest))
      × (length (make_room (entry ∷ rest) total).0 ≡ length rest)
      × ((make_room (entry ∷ rest) total).1 ≡ saturating_add total 1)
unfolding make_room
make_room_lem entry rest total =
    go (remove_regular (entry ∷ rest)) refl (remove_regular-Shorter (entry ∷ rest))
  where
    go :
        (o : Option (List QueueEntry))
        → remove_regular (entry ∷ rest) ≡ o
        → Shorter (entry ∷ rest) o
        → (ended (make_room (entry ∷ rest) total).0 ≡ kept (entry ∷ rest))
          × (length (make_room (entry ∷ rest) total).0 ≡ length rest)
          × ((make_room (entry ∷ rest) total).1 ≡ saturating_add total 1)
    go none e h = rw (e, make_room) (rw h (sym (ap tail_of (all_ended entry rest h))), refl, refl)
    go (some left) e (some_one, same, long) =
        rw (e, make_room) (rw some_one same, omega arith, refl)

-- The line on the end of an endpoint enters the queue, which stays within its capacity; of the lines
-- on other ends it keeps all in their order, unless it is full of them, and then all but the
-- oldest.
pub enqueue_synthetic-ended :
    (capacity : ℕ) (line : StatsLine) (queue : List QueueEntry) (total : ℕ)
    → 0 < capacity
    → length queue ≤ capacity
    → (ended (enqueue_synthetic capacity line queue total).0
        ≡ (if leb capacity (length queue) then kept queue else ended queue) ++ line ∷ [])
      × (length (enqueue_synthetic capacity line queue total).0 ≤ capacity)
unfolding enqueue_synthetic ended
enqueue_synthetic-ended capacity line [] total positive bound =
    let some_room : leb capacity 0 ≡ false = ground arith in
    let not_zero : (capacity == 0) ≡ false = ground arith in
    rw (not_zero, some_room) (refl, omega arith)
enqueue_synthetic-ended capacity line (entry ∷ rest) total positive bound =
    let not_zero : (capacity == 0) ≡ false = ground arith in
    let last : QueueEntry = record { line = line; synthetic = true } in
    elim (Bool-cases (leb capacity (suc (length rest)))) [
      | inl full ↦
          let (same, long, _) = make_room_lem entry rest total in
          let roomy = (make_room (entry ∷ rest) total).0 in
          rw (not_zero, full)
            (
              ended-append roomy (last ∷ []) ∙ ap (λ t. t ++ line ∷ []) same,
              omega (arith, length-append roomy (last ∷ [])),
            )
      | inr room ↦
          rw (not_zero, room)
            (
              ended-append (entry ∷ rest) (last ∷ []),
              omega (arith, leb→lt _ _ room, length-append (entry ∷ rest) (last ∷ [])),
            )
    ]

-- Queueing a regular line leaves the newest lines that the queue has room for, and counts the others.
enqueue_regular-newest :
    (capacity : ℕ) (line : StatsLine) (queue : List QueueEntry) (total : ℕ)
    → length queue ≤ capacity
    → total < u64_max
    → ((enqueue_regular capacity line queue total).0
        ≡ newest capacity (queue ++ record { line = line; synthetic = false } ∷ []))
      × ((enqueue_regular capacity line queue total).1 ≡ total + (suc (length queue) - capacity))
unfolding enqueue_regular
enqueue_regular-newest capacity line [] total bound small =
    let more = saturating_add-one total small in
    elim (Bool-cases (capacity == 0)) [
      | inl zero_capacity ↦
          let none_fits : capacity ≡ 0 = (==_iff capacity 0).0 zero_capacity in
          rw (zero_capacity, none_fits) (refl, omega (arith, more))
      | inr positive ↦
          let some_room : leb capacity 0 ≡ false = ground arith in
          let over : 1 - capacity ≡ 0 = ground arith in
          rw (positive, some_room, over) (refl, omega arith)
    ]
enqueue_regular-newest capacity line (entry ∷ rest) total bound small =
    let last : QueueEntry = record { line = line; synthetic = false } in
    let more = saturating_add-one total small in
    let positive : (capacity == 0) ≡ false = ground arith in
    let long = length-append rest (last ∷ []) in
    elim (Bool-cases (leb capacity (suc (length rest)))) [
      | inl full ↦
          let over : suc (length (rest ++ last ∷ [])) - capacity ≡ 1 =
            omega (arith, leb→le _ _ full, long) in
          rw (positive, full, over) (refl, omega (arith, more, leb→le _ _ full))
      | inr room ↦
          let over : suc (length (rest ++ last ∷ [])) - capacity ≡ 0 =
            omega (arith, leb→lt _ _ room, long) in
          rw (positive, room, over) (refl, omega (arith, leb→lt _ _ room))
    ]

module _ (stats : ℕ → EndpointStats) (capacity : ℕ) (ts : Name) where
  -- The lines of an interval: one for each registered endpoint, in their order.
  abbrev pub interval_lines : List (ℕ × RegisteredEndpoint) → List QueueEntry
  interval_lines [] = []
  interval_lines ((id, entry) ∷ registry) =
      record {
        line = build_line entry.name (stats entry.stats) ts entry.routable;
        synthetic = false;
      }
      ∷ interval_lines registry

  emit_lines_of-newest :
      (registry : List (ℕ × RegisteredEndpoint)) (queue : List QueueEntry) (total : ℕ)
      → length queue ≤ capacity
      → total + length registry ≤ u64_max
      → ((emit_lines_of stats capacity ts registry queue total).0
          ≡ newest capacity (queue ++ interval_lines registry))
        × ((emit_lines_of stats capacity ts registry queue total).1
            ≡ total + (length queue + length registry - capacity))
  unfolding emit_lines_of
  emit_lines_of-newest [] queue total bound small =
      let none_over : length (queue ++ []) - capacity ≡ 0 = omega (arith, length-append queue []) in
      (rw none_over (sym (append-nil queue)), omega arith)
  emit_lines_of-newest ((id, entry) ∷ registry) queue total bound small =
      let line = build_line entry.name (stats entry.stats) ts entry.routable in
      let one : List QueueEntry = record { line = line; synthetic = false } ∷ [] in
      let (kept_lines, counted) =
        enqueue_regular-newest capacity line queue total bound (omega arith) in
      let next = enqueue_regular capacity line queue total in
      let size : length next.0 ≡ length (queue ++ one) - (length (queue ++ one) - capacity) =
        ap length kept_lines ∙ length-drop (length (queue ++ one) - capacity) (queue ++ one) in
      let more = length-append queue one in
      let (lines, total_after) =
        emit_lines_of-newest registry next.0 next.1 (omega (arith, size, more))
          (omega (arith, counted)) in
      (
        lines
            ∙ ap (λ l. newest capacity (l ++ interval_lines registry)) kept_lines
            ∙ newest-append capacity (queue ++ one) (interval_lines registry)
            ∙ ap (newest capacity) (append_assoc queue one (interval_lines registry)),
        total_after ∙ omega (arith, counted, size, more),
      )

  -- At an interval, a queue within its capacity takes one line for each registered endpoint, in
  -- their order, and keeps the newest of all its lines, as many as its capacity; the total of
  -- dropped lines, if it has room for as many as there are endpoints, grows by the number of the
  -- others, which are the oldest.
  pub emit_interval_lines-newest :
      (reporter : Reporter)
      → length reporter.queue ≤ capacity
      → reporter.total_dropped + length reporter.registry ≤ u64_max
      → ((emit_interval_lines stats capacity ts reporter).queue
          ≡ newest capacity (reporter.queue ++ interval_lines reporter.registry))
        × ((emit_interval_lines stats capacity ts reporter).total_dropped
            ≡ reporter.total_dropped
              + (length reporter.queue + length reporter.registry - capacity))
  unfolding emit_interval_lines
  emit_interval_lines-newest reporter bound small =
      emit_lines_of-newest reporter.registry reporter.queue reporter.total_dropped bound small
