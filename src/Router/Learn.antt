-- ===== src/Router/Learn.antt =====
-- The learn table of an endpoint: src/router/learn.rs. An `Instant` is a number, and the reserved
-- capacity of the vector is left out.
pub mod Valid
pub mod Laws
use mavlink_router_rs.Base.{
  ℕ, ◌≡◌, Bool, true, false, Option, none, some, List, [], ◌∷◌, ◌++◌, any, leb, ◌==◌, if◌then◌else◌,
  length, max,
}
use mavlink_router_rs.Base.Entries.{find, modify, min_by_key, swap_remove}
use mavlink_router_rs.Mavlink.Frame.{NodeId, node_key}

pub record LearnEntry : Type 0 where
  pub node : NodeId
  pub last_seen : ℕ

pub record LearnTable : Type 0 where
  pub entries : List LearnEntry
  pub capacity : ℕ

abbrev pub node_of : LearnEntry → NodeId
node_of entry = entry.node

abbrev pub seen : LearnEntry → ℕ
seen entry = entry.last_seen

unfoldable pub new : ℕ → LearnTable
new capacity = record { entries = []; capacity = max capacity 1 }

abbrev pub is_some {ℓ} : {A : Type ℓ} → Option A → Bool
is_some none = false
is_some (some a) = true

unfoldable pub evict_oldest : LearnTable → LearnTable
evict_oldest table = elim (min_by_key seen table.entries) [
  | none ↦ table
  | some (index, _) ↦ record table { entries = swap_remove index table.entries }
]

unfoldable pub push : LearnTable → LearnEntry → LearnTable
push table entry = record table { entries = table.entries ++ entry ∷ [] }

-- The new table, and whether an entry was inserted.
unfoldable pub touch : LearnTable → NodeId → ℕ → LearnTable × Bool
touch table node now = elim (find node_of node table.entries) [
  | some _ ↦ (
    record table {
      entries = modify node_of node (λ entry. record entry { last_seen = now }) table.entries;
    },
    false,
  )
  | none ↦
      let roomy = if leb table.capacity (length table.entries) then evict_oldest table else table in
      (push roomy (record { node = node; last_seen = now }), true)
]

unfoldable pub contains : LearnTable → NodeId → Bool
contains table node = is_some (find node_of node table.entries)

unfoldable pub contains_sys : LearnTable → ℕ → Bool
contains_sys table sys = any (λ entry. entry.node.sys == sys) table.entries

unfoldable pub len : LearnTable → ℕ
len table = length table.entries
