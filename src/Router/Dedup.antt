-- ===== src/Router/Dedup.antt =====
-- The dedup window: src/router/dedup.rs. The hash function (XxHash3, of a library) is the
-- parameter `hash`. An `Instant` and a `Duration` are numbers. The hash set is the list of its
-- members, where `insert` adds only a hash that is not there and `remove` drops it.
pub mod Steps
pub mod Laws
pub mod Expiry
use mavlink_router_rs.Base.{
  ℕ, ◌+◌, Bool, true, false, not, Option, none, some, List, [], ◌∷◌, ◌++◌, any, ltb, leb, ◌==◌,
  if◌then◌else◌, length, max,
}

pub record Entry : Type 0 where
  pub hash : ℕ
  pub deadline : ℕ

pub record DedupWindow : Type 0 where
  pub ring : List Entry
  pub set : List ℕ
  pub capacity : ℕ
  pub ttl : ℕ

unfoldable pub new : ℕ → ℕ → DedupWindow
new ttl capacity = record { ring = []; set = []; capacity = max capacity 1; ttl = ttl }

unfoldable pub is_enabled : DedupWindow → Bool
is_enabled window = not (window.ttl == 0)

-- `HashSet::contains`, `remove` and `insert`.
unfoldable pub set_contains : ℕ → List ℕ → Bool
set_contains hash set = any (λ member. member == hash) set

unfoldable pub set_remove : ℕ → List ℕ → List ℕ
set_remove hash [] = []
set_remove hash (member ∷ set) =
    if member == hash then set_remove hash set else member ∷ set_remove hash set

unfoldable pub set_insert : ℕ → List ℕ → List ℕ
set_insert hash set = if set_contains hash set then set else hash ∷ set

-- The loop of `expire_stale` over the ring and the set.
unfoldable pub expire : ℕ → List Entry → List ℕ → List Entry × List ℕ
expire now [] set = ([], set)
expire now (front ∷ ring) set =
    let rest = expire now ring (set_remove front.hash set) in
    if ltb now front.deadline then (front ∷ ring, set) else rest

unfoldable pub expire_stale : DedupWindow → ℕ → DedupWindow
unfolding expire
expire_stale window now =
    let (ring, set) = expire now window.ring window.set in record window { ring = ring; set = set }

oldest_out : DedupWindow → List Entry → DedupWindow
oldest_out window [] = window
oldest_out window (victim ∷ ring) = record window {
  ring = ring;
  set = set_remove victim.hash window.set;
}

unfoldable pub evict_oldest : DedupWindow → DedupWindow
unfolding oldest_out
evict_oldest window = oldest_out window window.ring

unfoldable pub push : DedupWindow → ℕ → ℕ → DedupWindow
push window hash now = record window {
  ring = window.ring ++ record { hash = hash; deadline = now + window.ttl } ∷ [];
  set = set_insert hash window.set;
}

-- Make room in a full window, and enter the hash.
unfoldable pub admit : DedupWindow → ℕ → ℕ → DedupWindow
admit window hash now =
    let roomy = if leb window.capacity (length window.ring) then evict_oldest window else window in
    push roomy hash now

module _ (hash : List ℕ → ℕ) where
  -- The window after the frame, and whether the frame is a duplicate.
  unfoldable pub check_and_insert : DedupWindow → List ℕ → ℕ → DedupWindow × Bool
  check_and_insert window frame now =
      if not (is_enabled window)
      then (window, false)
      else let live = expire_stale window now in
        if set_contains (hash frame) live.set
        then (live, true)
        else (admit live (hash frame) now, false)
