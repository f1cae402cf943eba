-- ===== src/Router/Learn/Valid.antt =====
-- The invariant of the learn table, and what an eviction and a push do to it.
use mavlink_router_rs.Base.{
  ℕ, ◌≤◌, ◌<◌, ◌≡◌, refl, Option, none, some, [], ◌∷◌, arith, leb, if◌then◌else◌, length,
  length-append,
}
use mavlink_router_rs.Base.Entries.{
  find, min_by_key, Distinct, find-swap_remove, Distinct-swap_remove, Distinct-append,
  length-swap_remove, min_by_key_cases, Least,
}
use mavlink_router_rs.Mavlink.Frame.{NodeId, node_key, node_beq}
use mavlink_router_rs.Router.Learn.{LearnEntry, LearnTable, node_of, seen, new, evict_oldest, push}

-- At most `capacity` entries, room for one at least, and no node twice.
pub record IsValid (table : LearnTable) : Type 0 where
  pub positive : 0 < table.capacity
  pub bounded : length table.entries ≤ table.capacity
  pub distinct : Distinct node_of table.entries

-- When a node was last seen, if it is in the table.
unfoldable pub last_seen : LearnTable → NodeId → Option ℕ
last_seen table node = elim (find node_of node table.entries) [
  | none ↦ none
  | some entry ↦ some entry.last_seen
]

pub new-IsValid : (capacity : ℕ) → IsValid (new capacity)
unfolding new
new-IsValid capacity = record { positive = omega arith; bounded = omega arith; distinct = tt }

-- The entry that a sighting of `node` pushes out.
unfoldable pub victim : LearnTable → NodeId → Option LearnEntry
victim table node = elim (find node_of node table.entries) [
  | some _ ↦ none
  | none ↦
      if leb table.capacity (length table.entries)
      then (elim (min_by_key seen table.entries) [ none ↦ none | some (_, entry) ↦ some entry ])
      else none
]

pub capacity-evict_oldest : (table : LearnTable) → (evict_oldest table).capacity ≡ table.capacity
unfolding evict_oldest
capacity-evict_oldest table = ground arith

module _ (table : LearnTable) (v : IsValid table) where
  pub evict_oldest-IsValid :
      IsValid (evict_oldest table)
      × (length table.entries ≡ table.capacity
          → length (evict_oldest table).entries < table.capacity)
  unfolding evict_oldest
  evict_oldest-IsValid =
      go (min_by_key seen table.entries) refl (min_by_key_cases seen table.entries)
    where
      go :
          (o : Option (ℕ × LearnEntry))
          → min_by_key seen table.entries ≡ o
          → Least seen table.entries o
          → IsValid (evict_oldest table)
            × (length table.entries ≡ table.capacity
                → length (evict_oldest table).entries < table.capacity)
      go none e empty = rw (e, evict_oldest) (v, λ full. rw empty (v.positive))
      go (some (index, entry)) e (at, inside) =
          let shorter = length-swap_remove table.entries index inside in
          rw (e, evict_oldest)
            (
              record {
                positive = v.positive;
                bounded = omega (arith, v.bounded);
                distinct = Distinct-swap_remove node_of table.entries index v.distinct at;
              },
              λ full. omega (arith, v.bounded),
            )

  -- A new entry fits behind the table, once there is room.
  pub push-IsValid :
      (entry : LearnEntry)
      → length table.entries < table.capacity
      → find node_of entry.node table.entries ≡ none
      → IsValid (push table entry)
  unfolding push
  push-IsValid entry room fresh = record {
    positive = v.positive;
    bounded = omega (arith, length-append table.entries (entry ∷ []));
    distinct = Distinct-append node_of table.entries entry v.distinct fresh;
  }

  -- The oldest entry is gone, and every other stays.
  pub find-evict_oldest :
      (node : NodeId) {index : ℕ} {entry : LearnEntry}
      → min_by_key seen table.entries ≡ some (index, entry)
      → find node_of node (evict_oldest table).entries
        ≡ (if node_beq entry.node node then none else find node_of node table.entries)
  unfolding evict_oldest
  find-evict_oldest node {index = index} {entry = entry} e =
      go (min_by_key_cases seen table.entries)
    where
      go :
          Least seen table.entries (min_by_key seen table.entries)
          → find node_of node (evict_oldest table).entries
            ≡ (if node_beq entry.node node then none else find node_of node table.entries)
      go least =
          let (at, inside) = rw e at least in
          rw (e, evict_oldest) (find-swap_remove node_of node table.entries index v.distinct at)

  pub unfound-evict_oldest :
      (node : NodeId)
      → find node_of node table.entries ≡ none
      → find node_of node (evict_oldest table).entries ≡ none
  unfound-evict_oldest node h = go (min_by_key seen table.entries) refl
    where
      go :
          (o : Option (ℕ × LearnEntry))
          → min_by_key seen table.entries ≡ o
          → find node_of node (evict_oldest table).entries ≡ none
      go none e = unfold evict_oldest in rw (e, evict_oldest) h
      go (some (index, entry)) e = ground (arith, find-evict_oldest node e)
