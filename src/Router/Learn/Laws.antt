-- ===== src/Router/Learn/Laws.antt =====
-- The learn table as a map from nodes to the time of their last sighting.
use mavlink_router_rs.Base.{
  ℕ, ◌≤◌, ◌≡◌, refl, ap, Bool, true, false, not, ◌&&◌, ◌||◌, Option, none, some, arith, leb, leb→le,
  leb→lt, Bool-cases, Option-cases, inl, inr, if◌then◌else◌, length,
}
use mavlink_router_rs.Base.Entries.{
  find, modify, min_by_key, find-append, find-modify, length-modify, Distinct-modify,
  min_by_key_cases, min_by_key_least, Least, find_elem,
}
use mavlink_router_rs.Mavlink.Frame.{NodeId, node_key, node_beq, node_beq_iff}
use mavlink_router_rs.Router.Learn.{
  LearnEntry, LearnTable, node_of, seen, is_some, evict_oldest, push, touch, contains,
}
use mavlink_router_rs.Router.Learn.Valid.{
  IsValid, last_seen, victim, capacity-evict_oldest, evict_oldest-IsValid, push-IsValid,
  find-evict_oldest, unfound-evict_oldest,
}

-- Whether an evicted entry is that of a node.
abbrev pub evicts : Option LearnEntry → NodeId → Bool
evicts none node = false
evicts (some entry) node = node_beq entry.node node

module _ (table : LearnTable) (v : IsValid table) (node : NodeId) (now : ℕ) where
  entry_now : LearnEntry
  entry_now = record { node = node; last_seen = now }

  -- `touch` keeps the table valid: never more entries than the capacity, never a node twice.
  pub touch-IsValid : IsValid (touch table node now).0
  unfolding touch entry_now
  touch-IsValid = elim (Option-cases (find node_of node table.entries)) [
    | inr (old, e) ↦
        rw (e, touch)
          (record {
            positive = v.positive;
            bounded = omega (
              arith,
              v.bounded,
              length-modify node_of node (λ (entry : LearnEntry). record entry { last_seen = now })
                  table.entries,
            );
            distinct =
                Distinct-modify node_of node (λ entry. record entry { last_seen = now })
                  table.entries (λ a. refl) v.distinct;
          })
    | inl e ↦ elim (Bool-cases (leb table.capacity (length table.entries))) [
      | inl full ↦
          let (valid, room) = evict_oldest-IsValid table v in
          let lower = room (omega (arith, v.bounded, leb→le _ _ full)) in
          let same = capacity-evict_oldest table in
          rw (e, touch)
            (rw full (
              push-IsValid (evict_oldest table) valid entry_now (rw same lower)
                (unfound-evict_oldest table v node e)))
      | inr room ↦ rw (e, touch) (rw room (push-IsValid table v entry_now (leb→lt _ _ room) e))
    ]
  ]

  -- A sighting reports an insertion exactly if the node was not in the table.
  touch_inserts : (touch table node now).1 ≡ not (contains table node)
  unfolding touch contains
  touch_inserts = ground arith

  -- What a lookup finds after an entry for `node` was pushed onto a table without it.
  last_seen-push :
      (t : LearnTable) (other : NodeId)
      → last_seen (push t entry_now) other
        ≡ elim (find node_of other t.entries) as (λ _. Option ℕ) [
          | none ↦ if node_beq node other then some now else none
          | some entry ↦ some entry.last_seen
        ]
  unfolding last_seen push entry_now
  last_seen-push t other = ground (arith, find-append node_of other t.entries entry_now)

  -- A lookup after a sighting, told from the entries.
  abbrev After : NodeId → Type 0
  After other = last_seen (touch table node now).0 other ≡ (
      if node_beq node other
      then some now
      else if evicts (victim table node) other
      then none
      else last_seen table other)

  touch_full :
      (other : NodeId)
      → find node_of node table.entries ≡ none
      → leb table.capacity (length table.entries) ≡ true
      → After other
  unfolding touch victim entry_now
  touch_full other e full =
      go (min_by_key seen table.entries) refl (min_by_key_cases seen table.entries)
    where
      go :
          (o : Option (ℕ × LearnEntry))
          → min_by_key seen table.entries ≡ o
          → Least seen table.entries o
          → After other
      go none m empty = absurd (omega (arith, v.positive, leb→le _ _ full, ap length empty))
      go (some (index, entry)) m least =
          rw (e, touch, victim)
            (rw full (
              rw m (
                rw (last_seen-push (evict_oldest table) other) (
                  rw (find-evict_oldest table v other m) (
                    unfold last_seen in
                    ground (arith, e, node_beq_iff node other, node_beq_iff entry.node other))))))

  refreshed :
      (other : NodeId) {old : LearnEntry}
      → find node_of node table.entries ≡ some old
      → last_seen
          (record table {
            entries = modify node_of node (λ entry. record entry { last_seen = now }) table.entries;
          })
          other
        ≡ (if node_beq node other then some now else last_seen table other)
  unfolding last_seen
  refreshed other e = ground (
    arith,
    e,
    find-modify node_of node other (λ (entry : LearnEntry). record entry { last_seen = now })
        table.entries (λ a. refl),
  )

  -- After a sighting of `node` at `now` the table holds that time for `node`, nothing for the
  -- victim, and for every other node what it held.
  pub last_seen-touch :
      (other : NodeId)
      → last_seen (touch table node now).0 other ≡ (
          if node_beq node other
          then some now
          else if evicts (victim table node) other
          then none
          else last_seen table other)
  unfolding touch victim entry_now
  last_seen-touch other = elim (Option-cases (find node_of node table.entries)) [
    | inr (old, e) ↦ rw (e, touch, victim) (refreshed other e)
    | inl e ↦ elim (Bool-cases (leb table.capacity (length table.entries))) [
      | inl full ↦ touch_full other e full
      | inr room ↦
          rw (e, touch, victim)
            (rw room (
              rw (last_seen-push table other)
                (unfold last_seen in ground (arith, e, node_beq_iff node other))))
    ]
  ]

-- A node is in the table exactly if it has a last sighting.
contains-last_seen :
    (table : LearnTable) (node : NodeId) → contains table node ≡ is_some (last_seen table node)
unfolding contains last_seen
contains-last_seen table node = ground arith

-- After a sighting the table contains the node, and otherwise what it contained, less the victim.
pub contains-touch :
    (table : LearnTable) (node : NodeId) (now : ℕ) (other : NodeId)
    → IsValid table
    → contains (touch table node now).0 other
      ≡ (node_beq node other || (not (evicts (victim table node) other) && contains table other))
contains-touch table node now other v =
    let after = last_seen-touch table v node now other in
    ground (
      arith,
      after,
      contains-last_seen table other,
      contains-last_seen (touch table node now).0 other,
    )

-- A node that was sighted is in the table.
pub contains-touch_self :
    (table : LearnTable) (node : NodeId) (now : ℕ) → contains (touch table node now).0 node ≡ true
unfolding contains touch push
contains-touch_self table node now =
    let same = (node_beq_iff node node).1 refl in
    let entry : LearnEntry = record { node = node; last_seen = now } in
    ground (
      arith,
      same,
      find-modify node_of node node (λ (old : LearnEntry). record old { last_seen = now })
          table.entries (λ a. refl),
      find-append node_of node table.entries entry,
      find-append node_of node (evict_oldest table).entries entry,
    )

-- The victim of a sighting stands in a full table that does not hold the sighted node, and no
-- other entry is older.
pub record IsOldest (table : LearnTable) (node : NodeId) (entry : LearnEntry) : Type 0 where
  pub full : length table.entries ≡ table.capacity
  pub unknown : contains table node ≡ false
  pub held : last_seen table entry.node ≡ some entry.last_seen
  pub oldest :
      (other : NodeId) (time : ℕ) → last_seen table other ≡ some time → entry.last_seen ≤ time

module _ (table : LearnTable) (v : IsValid table) (node : NodeId) where
  least_is_oldest :
      {index : ℕ} {entry : LearnEntry}
      → min_by_key seen table.entries ≡ some (index, entry)
      → (other : NodeId) (time : ℕ) → last_seen table other ≡ some time
      → entry.last_seen ≤ time
  unfolding last_seen
  least_is_oldest {entry = entry} m other time h =
      elim (Option-cases (find node_of other table.entries)) [
        | inl miss ↦ absurd (ground arith)
        | inr (found, hit) ↦
            ground (
              arith,
              min_by_key_least node_of seen table.entries other {v = entry} {a = found} m hit,
            )
      ]

  -- Only a full table that does not hold the sighted node gives up an entry, and that entry is one
  -- of the table than which no other is older.
  pub victim-IsOldest :
      {entry : LearnEntry} → victim table node ≡ some entry → IsOldest table node entry
  unfolding victim contains last_seen
  victim-IsOldest {entry} h = elim (Option-cases (find node_of node table.entries)) [
    | inr (old, e) ↦ absurd (ground arith)
    | inl e ↦ elim (Bool-cases (leb table.capacity (length table.entries))) [
      | inr room ↦ absurd (ground arith)
      | inl full ↦
          go e full (min_by_key seen table.entries) refl (min_by_key_cases seen table.entries)
    ]
  ]
    where
      go :
          find node_of node table.entries ≡ none
          → leb table.capacity (length table.entries) ≡ true
          → (o : Option (ℕ × LearnEntry)) → min_by_key seen table.entries ≡ o
          → Least seen table.entries o
          → IsOldest table node entry
      go e full none m empty = absurd (ground arith)
      go e full (some (index, least)) m (at, inside) =
          let same : least ≡ entry = ground arith in
          record {
            full = omega (arith, v.bounded, leb→le _ _ full);
            unknown = rw e;
            held =
                rw (← same) (rw (find_elem node_of table.entries index v.distinct at, last_seen));
            oldest = rw (← same) (least_is_oldest m);
          }
