-- ===== src/Endpoint/SeqTracker.antt =====
-- The sequence tracker of an endpoint's reader: src/endpoint/seq_tracker.rs.
pub mod Laws
use mavlink_router_rs.Base.{
  ℕ, ◌+◌, ◌-◌, ◌%◌, ◌^◌, Bool, true, false, ◌&&◌, Option, none, some, List, [], ◌∷◌, ◌++◌, ltb, leb,
  if◌then◌else◌, length, max,
}
use mavlink_router_rs.Base.Entries.{find, modify, min_by_key, swap_remove}
use mavlink_router_rs.Mavlink.Frame.{NodeId, node_key}

abbrev default_seq_gap_threshold : ℕ
default_seq_gap_threshold = 64

pub record Entry : Type 0 where
  pub node : NodeId
  pub last_seq : ℕ
  pub last_seen : ℕ

pub record SeqTracker : Type 0 where
  pub entries : List Entry
  pub capacity : ℕ
  pub threshold : ℕ

abbrev pub node_of : Entry → NodeId
node_of entry = entry.node

abbrev pub seen : Entry → ℕ
seen entry = entry.last_seen

unfoldable pub new : ℕ → SeqTracker
new capacity = record {
  entries = [];
  capacity = max capacity 1;
  threshold = default_seq_gap_threshold;
}

-- `u8::wrapping_sub`.
abbrev pub wrapping_sub : ℕ → ℕ → ℕ
wrapping_sub a b = (a + 2 ^ 8 - b) % 2 ^ 8

unfoldable pub evict_oldest : SeqTracker → SeqTracker
evict_oldest tracker = elim (min_by_key seen tracker.entries) [
  | none ↦ tracker
  | some (index, _) ↦ record tracker { entries = swap_remove index tracker.entries }
]

-- The new tracker, and the number of frames inferred to be lost.
unfoldable pub observe : SeqTracker → NodeId → ℕ → ℕ → SeqTracker × ℕ
observe tracker node seq now = elim (find node_of node tracker.entries) [
  | some entry ↦
      let gap = wrapping_sub (wrapping_sub seq entry.last_seq) 1 in
      (
        record tracker {
          entries =
              modify node_of node (λ found. record found { last_seq = seq; last_seen = now })
                tracker.entries;
        },
        if ltb 0 gap && ltb gap tracker.threshold then gap else 0,
      )
  | none ↦
      let roomy =
        if leb tracker.capacity (length tracker.entries) then evict_oldest tracker else tracker in
      (
        record roomy {
          entries = roomy.entries ++ record { node = node; last_seq = seq; last_seen = now } ∷ [];
        },
        0,
      )
]
