-- ===== src/Endpoint/TxQueue.antt =====
-- The transmit queue of an endpoint: src/endpoint/tx_queue.rs. The bounded queue under it is
-- `ArrayQueue` of the crate crossbeam-queue, which enters by an interface with its documented
-- behaviour. The wake-up of the writer is left out.
pub mod Laws
pub mod Bounded
use mavlink_router_rs.Base.{
  ℕ, zero, suc, ◌+◌, ◌≤◌, ◌<◌, ◌≡◌, Bool, Option, none, some, List, [], ◌∷◌, ◌++◌, arith, ◌==◌, ltb,
  if◌then◌else◌, length, max,
}
use mavlink_router_rs.Endpoint.Stats.{EndpointStats, fetch_add}

-- A frame is the list of its bytes.
abbrev pub Bytes : Type 0
Bytes = List ℕ

-- `crossbeam_queue::ArrayQueue<Bytes>`: first in, first out; `force_push` gives back the oldest
-- element when it takes its place.
pub record ArrayQueue : Type 1 where
  pub Queue : Type 0
  pub make : ℕ → Queue
  pub force_push : Queue → Bytes → Queue × Option Bytes
  pub pop : Queue → Queue × Option Bytes
  pub contents : Queue → List Bytes
  pub capacity : Queue → ℕ
  pub contents-make : (cap : ℕ) → contents (make cap) ≡ []
  pub capacity-make : (cap : ℕ) → capacity (make cap) ≡ cap
  pub force_push_room :
      (q : Queue) (frame : Bytes)
      → length (contents q) < capacity q
      → (contents (force_push q frame).0 ≡ contents q ++ frame ∷ [])
        × ((force_push q frame).1 ≡ none)
  pub force_push_full :
      (q : Queue) (frame oldest : Bytes) (rest : List Bytes)
      → capacity q ≤ length (contents q)
      → contents q ≡ oldest ∷ rest
      → (contents (force_push q frame).0 ≡ rest ++ frame ∷ [])
        × ((force_push q frame).1 ≡ some oldest)
  pub capacity-force_push :
      (q : Queue) (frame : Bytes) → capacity (force_push q frame).0 ≡ capacity q
  pub pop_empty : (q : Queue) → contents q ≡ [] → (contents (pop q).0 ≡ []) × ((pop q).1 ≡ none)
  pub pop_next :
      (q : Queue) (oldest : Bytes) (rest : List Bytes)
      → contents q ≡ oldest ∷ rest
      → (contents (pop q).0 ≡ rest) × ((pop q).1 ≡ some oldest)
  pub capacity-pop : (q : Queue) → capacity (pop q).0 ≡ capacity q

-- A `TxQueue` is a handle: the queue and the counters behind its `Arc`s, named by numbers.
pub record TxQueue : Type 0 where
  pub inner : ℕ
  pub stats : ℕ

-- What the `Arc`s of the program point to.
pub record Shared (aq : ArrayQueue) : Type 0 where
  pub queues : ℕ → aq.Queue
  pub stats : ℕ → EndpointStats

abbrev pub update {ℓ} : {A : Type ℓ} → (ℕ → A) → ℕ → A → ℕ → A
update f k v j = if k == j then v else f j

module _ (aq : ArrayQueue) where
  -- A write to the counters behind a handle.
  unfoldable pub on_stats : ℕ → (EndpointStats → EndpointStats) → Shared aq → Shared aq
  on_stats handle f shared = record shared {
    stats = update shared.stats handle (f (shared.stats handle));
  }

  abbrev pub dropped : ℕ → EndpointStats → EndpointStats
  dropped count stats = record stats { dropped_tx = fetch_add stats.dropped_tx count }

  unfoldable pub push_queue : TxQueue → aq.Queue × Option Bytes → Shared aq → Shared aq
  unfolding on_stats
  push_queue queue (q, none) shared = record shared { queues = update shared.queues queue.inner q }
  push_queue queue (q, some _) shared =
      on_stats queue.stats (dropped 1)
        (record shared { queues = update shared.queues queue.inner q })

  -- `TxQueue::push`.
  unfoldable pub push : TxQueue → Bytes → Shared aq → Shared aq
  unfolding push_queue
  push queue frame shared =
      push_queue queue (aq.force_push (shared.queues queue.inner) frame) shared

  -- `TxQueue::pop`.
  unfoldable pub pop : TxQueue → Shared aq → Shared aq × Option Bytes
  pop queue shared =
      let (q, frame) = aq.pop (shared.queues queue.inner) in
      (record shared { queues = update shared.queues queue.inner q }, frame)

  -- The loop of `drain_and_discard`: the queue left, and how many frames were popped. The rounds
  -- allowed are the capacity and one more.
  unfoldable pub drain : ℕ → aq.Queue → aq.Queue × ℕ
  drain zero q = (q, 0)
  drain (suc rounds) q = elim ((aq.pop q).1) [
    | none ↦ ((aq.pop q).0, 0)
    | some _ ↦ let (left, count) = drain rounds (aq.pop q).0 in (left, suc count)
  ]

  unfoldable pub drain_and_discard : TxQueue → Shared aq → Shared aq × ℕ
  unfolding drain on_stats
  drain_and_discard queue shared =
      let q = shared.queues queue.inner in
      let (left, count) = drain (suc (length (aq.contents q))) q in
      let emptied : Shared aq = record shared { queues = update shared.queues queue.inner left } in
      (if ltb 0 count then on_stats queue.stats (dropped count) emptied else emptied, count)
