-- ===== src/Endpoint/SeqTracker/Laws.antt =====
-- What the sequence tracker infers.
use mavlink_router_rs.Base.{
  ℕ, ◌+◌, ◌%◌, ◌≤◌, ◌<◌, ◌≡◌, refl, ap₂, ◌∙◌, Option, none, some, List, [], ◌∷◌, ◌++◌, arith, ltb,
  leb, Bool-cases, Option-cases, inl, inr, if◌then◌else◌, length,
}
use mavlink_router_rs.Base.Entries.{
  find, min_by_key, find-append, find-modify, min_by_key_cases, Least, Distinct, find-swap_remove,
  Distinct-append, Distinct-modify, Distinct-swap_remove,
}
use mavlink_router_rs.Endpoint.SeqTracker.{
  Entry, SeqTracker, node_of, seen, wrapping_sub, evict_oldest, observe,
}
use mavlink_router_rs.Mavlink.Frame.{NodeId, node_key, node_beq_iff}

-- The sequence number last seen from a node, if the tracker holds the node.
unfoldable pub last_seq : SeqTracker → NodeId → Option ℕ
last_seq tracker node = elim (find node_of node tracker.entries) [
  | none ↦ none
  | some entry ↦ some entry.last_seq
]

-- After a frame `last` a link that loses `lost` frames delivers `last + lost + 1` next, in the
-- byte that wraps around. The tracker reports `lost` if it is below the threshold, and nothing if
-- it is above, as after a restart.
pub observe_lost :
    (tracker : SeqTracker) (node : NodeId) (last lost now : ℕ)
    → last_seq tracker node ≡ some last
    → last < 256
    → lost < 256
    → (observe tracker node ((last + lost + 1) % 256) now).1
      ≡ (if ltb lost tracker.threshold then lost else 0)
unfolding observe last_seq
observe_lost tracker node last lost now h small few =
    elim (Option-cases (find node_of node tracker.entries)) [
      | inl e ↦ absurd (ground arith)
      | inr (entry, e) ↦
          let same : entry.last_seq ≡ last = ground arith in
          let gap : wrapping_sub (wrapping_sub ((last + lost + 1) % 256) entry.last_seq) 1 ≡ lost =
            rw same (omega arith) in
          rw (e, observe) (rw gap (ground arith))
    ]

-- A node that the tracker does not hold counts no loss.
observe_unknown :
    (tracker : SeqTracker) (node : NodeId) (seq now : ℕ)
    → last_seq tracker node ≡ none
    → (observe tracker node seq now).1 ≡ 0
unfolding observe last_seq
observe_unknown tracker node seq now h = ground arith

roomy_tracker : SeqTracker → SeqTracker
roomy_tracker tracker =
    if leb tracker.capacity (length tracker.entries) then evict_oldest tracker else tracker

unfound-evict_oldest :
    (tracker : SeqTracker) (node : NodeId)
    → Distinct node_of tracker.entries
    → find node_of node tracker.entries ≡ none
    → find node_of node (evict_oldest tracker).entries ≡ none
unfolding evict_oldest
unfound-evict_oldest tracker node d h =
    go (min_by_key seen tracker.entries) refl (min_by_key_cases seen tracker.entries)
  where
    go :
        (o : Option (ℕ × Entry))
        → min_by_key seen tracker.entries ≡ o
        → Least seen tracker.entries o
        → find node_of node (evict_oldest tracker).entries ≡ none
    go none e empty = rw (e, evict_oldest) h
    go (some (index, entry)) e (at, inside) =
        rw (e, evict_oldest)
          (ground (arith, find-swap_remove node_of node tracker.entries index d at, h))

unfound-roomy_tracker :
    (tracker : SeqTracker) (node : NodeId)
    → Distinct node_of tracker.entries
    → find node_of node tracker.entries ≡ none
    → find node_of node (roomy_tracker tracker).entries ≡ none
unfolding roomy_tracker
unfound-roomy_tracker tracker node d h =
    elim (Bool-cases (leb tracker.capacity (length tracker.entries))) [
      | inl full ↦ rw full (unfound-evict_oldest tracker node d h)
      | inr room ↦ rw room h
    ]

last_seq_pushed :
    (tracker : SeqTracker) (entry : Entry)
    → find node_of entry.node tracker.entries ≡ none
    → last_seq (record tracker { entries = tracker.entries ++ entry ∷ [] }) entry.node
      ≡ some entry.last_seq
unfolding last_seq
last_seq_pushed tracker entry h =
    rw (find-append node_of entry.node tracker.entries entry, last_seq)
      (ground (arith, h, node_beq_iff entry.node entry.node))

roomy_tracker-Distinct :
    (tracker : SeqTracker)
    → Distinct node_of tracker.entries
    → Distinct node_of (roomy_tracker tracker).entries
unfolding roomy_tracker
roomy_tracker-Distinct tracker d =
    elim (Bool-cases (leb tracker.capacity (length tracker.entries))) [
      | inl full ↦
          rw full
            (go (min_by_key seen tracker.entries) refl (min_by_key_cases seen tracker.entries))
      | inr room ↦ rw room d
    ]
  where
    go :
        (o : Option (ℕ × Entry))
        → min_by_key seen tracker.entries ≡ o
        → Least seen tracker.entries o
        → Distinct node_of (evict_oldest tracker).entries
    go none e empty = unfold evict_oldest in rw (e, evict_oldest) d
    go (some (index, entry)) e (at, inside) =
        unfold evict_oldest in
        rw (e, evict_oldest) (Distinct-swap_remove node_of tracker.entries index d at)

-- After an observation the node is held with its sequence number, whatever gave way to it.
pub last_seq-observe :
    (tracker : SeqTracker) (node : NodeId) (seq now : ℕ)
    → Distinct node_of tracker.entries
    → last_seq (observe tracker node seq now).0 node ≡ some seq
unfolding observe last_seq roomy_tracker
last_seq-observe tracker node seq now d = elim (Option-cases (find node_of node tracker.entries)) [
  | inr (old, e) ↦
      rw (e, observe)
        (ground (
          arith,
          e,
          find-modify node_of node node
              (λ (found : Entry). record found { last_seq = seq; last_seen = now }) tracker.entries
              (λ a. refl),
          node_beq_iff node node,
        ))
  | inl e ↦
      rw (e, observe)
        (last_seq_pushed (roomy_tracker tracker)
          (record { node = node; last_seq = seq; last_seen = now })
          (unfound-roomy_tracker tracker node d e))
]

-- No node is held twice.
observe-Distinct :
    (tracker : SeqTracker) (node : NodeId) (seq now : ℕ)
    → Distinct node_of tracker.entries
    → Distinct node_of (observe tracker node seq now).0.entries
unfolding observe roomy_tracker
observe-Distinct tracker node seq now d = elim (Option-cases (find node_of node tracker.entries)) [
  | inr (old, e) ↦
      rw (e, observe)
        (Distinct-modify node_of node (λ found. record found { last_seq = seq; last_seen = now })
          tracker.entries (λ a. refl) d)
  | inl e ↦
      rw (e, observe)
        (Distinct-append node_of (roomy_tracker tracker).entries
          (record { node = node; last_seq = seq; last_seen = now })
          (roomy_tracker-Distinct tracker d) (unfound-roomy_tracker tracker node d e))
]

-- The threshold does not change.
threshold-observe :
    (tracker : SeqTracker) (node : NodeId) (seq now : ℕ)
    → (observe tracker node seq now).0.threshold ≡ tracker.threshold
unfolding observe evict_oldest
threshold-observe tracker node seq now = ground arith

-- A link that delivers a frame of `node` after each number of lost frames in the list, at time
-- `now`: what the tracker reports in all.
abbrev pub run : SeqTracker → NodeId → ℕ → ℕ → List ℕ → ℕ
run tracker node last now [] = 0
run tracker node last now (lost ∷ losses) =
    let seq = (last + lost + 1) % 256 in
    let (next, reported) = observe tracker node seq now in reported + run next node seq now losses

abbrev pub sum : List ℕ → ℕ
sum [] = 0
sum (x ∷ xs) = x + sum xs

abbrev Below : ℕ → List ℕ → Type 0
Below bound [] = Unit
Below bound (x ∷ xs) = (x < bound) × Below bound xs

-- Along a stream of frames of one node, each behind a loss below the threshold, the tracker
-- reports exactly the number of frames lost, across every wrap-around of the sequence byte.
pub run-sum :
    (losses : List ℕ) (tracker : SeqTracker) (node : NodeId) (last now : ℕ)
    → Distinct node_of tracker.entries
    → last_seq tracker node ≡ some last
    → last < 256
    → tracker.threshold ≤ 256
    → Below tracker.threshold losses
    → run tracker node last now losses ≡ sum losses
run-sum [] tracker node last now d held small t b = refl
run-sum (lost ∷ losses) tracker node last now d held small t (first, rest) =
    let seq = (last + lost + 1) % 256 in
    let next = (observe tracker node seq now).0 in
    let same = threshold-observe tracker node seq now in
    let reported = observe_lost tracker node last lost now held small (omega arith) in
    let here : (if ltb lost tracker.threshold then lost else 0) ≡ lost = ground arith in
    ap₂ ◌+◌ (reported ∙ here) (
      run-sum losses next node seq now (observe-Distinct tracker node seq now d)
        (last_seq-observe tracker node seq now d) (omega arith) (rw same t) (rw same rest))
