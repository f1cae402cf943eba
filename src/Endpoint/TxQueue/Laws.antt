-- ===== src/Endpoint/TxQueue/Laws.antt =====
-- The transmit queue drops the oldest frame and counts it, whatever bounded queue is under it.
use mavlink_router_rs.Base.{
  ℕ, zero, suc, ◌-◌, ◌^◌, ◌≤◌, ◌<◌, ◌≡◌, refl, ap, ◌∙◌, true, Option, none, some, List, [], ◌∷◌,
  ◌++◌, arith, ◌==◌, ltb, ltb→lt, ltb→le, ◌&&◌, ==_iff, if◌then◌else◌, length, length-append, drop,
  Bool-cases, inl, inr,
}
use mavlink_router_rs.Endpoint.Stats.{fetch_add}
use mavlink_router_rs.Endpoint.TxQueue.{
  Bytes, ArrayQueue, TxQueue, Shared, update, push_queue, push, pop, drain, drain_and_discard,
  dropped,
}

module _ (aq : ArrayQueue) where
  -- A queue that holds no more than its capacity, which is not zero.
  pub record IsBounded (q : aq.Queue) : Type 0 where
    pub positive : 0 < aq.capacity q
    pub bounded : length (aq.contents q) ≤ aq.capacity q

  -- How many frames must give way to one more.
  abbrev pub overflow : aq.Queue → ℕ
  overflow q = suc (length (aq.contents q)) - aq.capacity q

  abbrev evictions : Option Bytes → ℕ
  evictions none = 0
  evictions (some oldest) = 1

  -- A push keeps the newest frames that fit, and reports the one that gave way.
  record Pushed (q : aq.Queue) (frame : Bytes) : Type 0 where
    newest : aq.contents (aq.force_push q frame).0 ≡ drop (overflow q) (aq.contents q ++ frame ∷ [])
    within : IsBounded (aq.force_push q frame).0
    counted : evictions (aq.force_push q frame).1 ≡ overflow q

  force_push_roomy :
      (q : aq.Queue) (frame : Bytes)
      → IsBounded q
      → length (aq.contents q) < aq.capacity q
      → Pushed q frame
  force_push_roomy q frame b room =
      let (appended, none_out) = aq.force_push_room q frame room in
      let over : overflow q ≡ 0 = omega arith in
      let same = aq.capacity-force_push q frame in
      record {
        newest = rw over appended;
        within = record {
          positive = rw same b.positive;
          bounded = rw (appended, same) (omega (arith, length-append (aq.contents q) (frame ∷ [])));
        };
        counted = rw (none_out, over) refl;
      }

  force_push_crowded :
      (q : aq.Queue) (frame oldest : Bytes) (rest : List Bytes)
      → IsBounded q
      → aq.capacity q ≤ length (aq.contents q)
      → aq.contents q ≡ oldest ∷ rest
      → Pushed q frame
  force_push_crowded q frame oldest rest b full e =
      let (shifted, out) = aq.force_push_full q frame oldest rest full e in
      let over : overflow q ≡ 1 = omega (arith, b.bounded) in
      let same = aq.capacity-force_push q frame in
      let long : length (aq.contents q) ≡ suc (length rest) = ap length e in
      record {
        newest = rw over (shifted ∙ rw e refl);
        within = record {
          positive = rw same b.positive;
          bounded = rw (shifted, same) (omega (arith, length-append rest (frame ∷ []), b.bounded));
        };
        counted = rw (out, over) refl;
      }

  force_push-Pushed : (q : aq.Queue) (frame : Bytes) → IsBounded q → Pushed q frame
  force_push-Pushed q frame b = go (aq.contents q) refl
    where
      go : (l : List Bytes) → aq.contents q ≡ l → Pushed q frame
      go [] e = force_push_roomy q frame b (omega (arith, ap length e, b.positive))
      go (oldest ∷ rest) e = elim (Bool-cases (ltb (length (aq.contents q)) (aq.capacity q))) [
        | inl room ↦ force_push_roomy q frame b (ltb→lt _ _ room)
        | inr full ↦ force_push_crowded q frame oldest rest b (ltb→le _ _ full) e
      ]

  module _ (queue : TxQueue) (frame : Bytes) (shared : Shared aq) where
    abbrev pub before : aq.Queue
    before = shared.queues queue.inner

    pub push_queue-queues :
        (r : aq.Queue × Option Bytes)
        → (push_queue aq queue r shared).queues ≡ update shared.queues queue.inner r.0
    unfolding push_queue
    push_queue-queues (q, none) = refl
    push_queue-queues (q, some oldest) = refl

    push_queue-stats :
        (r : aq.Queue × Option Bytes) (handle : ℕ)
        → (push_queue aq queue r shared).stats handle ≡ (
            if ltb 0 (evictions r.1) && (queue.stats == handle)
            then dropped aq 1 (shared.stats handle)
            else shared.stats handle)
    unfolding push_queue
    push_queue-stats (q, none) handle = refl
    push_queue-stats (q, some oldest) handle = ground (arith, ap shared.stats)

    -- What `push` does to the queue alone.
    pub push-waiting :
        IsBounded before
        → (aq.contents ((push aq queue frame shared).queues queue.inner)
            ≡ drop (overflow before) (aq.contents before ++ frame ∷ []))
          × IsBounded ((push aq queue frame shared).queues queue.inner)
    unfolding push
    push-waiting b =
        let r = aq.force_push before frame in
        let p = force_push-Pushed before frame b in
        let own : (queue.inner == queue.inner) ≡ true = (==_iff queue.inner queue.inner).1 refl in
        (rw (push_queue-queues r) (rw own p.newest), rw (push_queue-queues r) (rw own p.within))

    -- Pushing a frame leaves the newest frames that the queue has room for, in their order, and
    -- adds to `dropped_tx` of the queue's counters how many gave way; the queue stays within its capacity.
    pub push_lem :
        IsBounded before
        → (shared.stats queue.stats).dropped_tx < 2 ^ 64
        → (aq.contents ((push aq queue frame shared).queues queue.inner)
            ≡ drop (overflow before) (aq.contents before ++ frame ∷ []))
          × IsBounded ((push aq queue frame shared).queues queue.inner)
          × (((push aq queue frame shared).stats queue.stats).dropped_tx
              ≡ fetch_add (shared.stats queue.stats).dropped_tx (overflow before))
    unfolding push
    push_lem b small =
        let r = aq.force_push before frame in
        let p = force_push-Pushed before frame b in
        let mine : (queue.stats == queue.stats) ≡ true = (==_iff queue.stats queue.stats).1 refl in
        let (newest, within) = push-waiting b in
        (newest, within, rw (push_queue-stats r queue.stats) (rw mine (go r.1 p.counted)))
      where
        go :
            (out : Option Bytes)
            → evictions out ≡ overflow before
            → (if ltb 0 (evictions out) && true
                then dropped aq 1 (shared.stats queue.stats)
                else shared.stats queue.stats).dropped_tx
              ≡ fetch_add (shared.stats queue.stats).dropped_tx (overflow before)
        go none e = rw (← e) (omega arith)
        go (some oldest) e = rw (← e) refl

  -- Draining empties the queue, and counts what it held.
  drain_lem :
      (rounds : ℕ) (q : aq.Queue) (l : List Bytes)
      → aq.contents q ≡ l
      → length l < rounds
      → (aq.contents (drain aq rounds q).0 ≡ []) × ((drain aq rounds q).1 ≡ length l)
  unfolding drain
  drain_lem zero q l e h = absurd (omega arith)
  drain_lem (suc rounds) q [] e h =
      let (left, out) = aq.pop_empty q e in rw (out, drain) (left, refl)
  drain_lem (suc rounds) q (oldest ∷ rest) e h =
      let (left, out) = aq.pop_next q oldest rest e in
      let (empty, count) = drain_lem rounds (aq.pop q).0 rest left (omega arith) in
      rw (out, drain) (empty, ap suc count)

  -- `drain_and_discard` leaves the queue empty, reports how many frames it held, and adds that
  -- number to `dropped_tx`.
  pub drain_and_discard_lem :
      (queue : TxQueue) (shared : Shared aq)
      → (shared.stats queue.stats).dropped_tx < 2 ^ 64
      → (aq.contents ((drain_and_discard aq queue shared).0.queues queue.inner) ≡ [])
        × ((drain_and_discard aq queue shared).1 ≡ length (aq.contents (shared.queues queue.inner)))
        × (((drain_and_discard aq queue shared).0.stats queue.stats).dropped_tx
            ≡ fetch_add
                (shared.stats queue.stats).dropped_tx
                (length (aq.contents (shared.queues queue.inner))))
  unfolding drain_and_discard
  drain_and_discard_lem queue shared small =
      let q = shared.queues queue.inner in
      let (empty, count) =
        drain_lem (suc (length (aq.contents q))) q (aq.contents q) refl (omega arith) in
      let own : (queue.inner == queue.inner) ≡ true = (==_iff queue.inner queue.inner).1 refl in
      let mine : (queue.stats == queue.stats) ≡ true = (==_iff queue.stats queue.stats).1 refl in
      rw count (elim (Bool-cases (ltb 0 (length (aq.contents q)))) [
        | inl some_left ↦ (rw some_left (rw own empty), refl, rw some_left (rw mine refl))
        | inr none_left ↦
            let zero_long = ltb→le _ _ none_left in
            (rw none_left (rw own empty), refl, rw none_left (omega arith))
      ])

  capacity-drain :
      (rounds : ℕ) (q : aq.Queue) (l : List Bytes)
      → aq.contents q ≡ l
      → aq.capacity (drain aq rounds q).0 ≡ aq.capacity q
  unfolding drain
  capacity-drain zero q l e = refl
  capacity-drain (suc rounds) q [] e = rw ((aq.pop_empty q e).1, drain) (aq.capacity-pop q)
  capacity-drain (suc rounds) q (oldest ∷ rest) e =
      let (left, out) = aq.pop_next q oldest rest e in
      rw (out, drain) (capacity-drain rounds (aq.pop q).0 rest left ∙ aq.capacity-pop q)

  -- A queue within its capacity is empty once drained, and within its capacity still.
  pub drain_and_discard-IsBounded :
      (queue : TxQueue) (shared : Shared aq)
      → IsBounded (shared.queues queue.inner)
      → (aq.contents ((drain_and_discard aq queue shared).0.queues queue.inner) ≡ [])
        × IsBounded ((drain_and_discard aq queue shared).0.queues queue.inner)
  unfolding drain_and_discard
  drain_and_discard-IsBounded queue shared b =
      let q = shared.queues queue.inner in
      let rounds = suc (length (aq.contents q)) in
      let (empty, count) = drain_lem rounds q (aq.contents q) refl (omega arith) in
      let same : aq.capacity (drain aq rounds q).0 ≡ aq.capacity q =
        capacity-drain rounds q (aq.contents q) refl in
      let own : (queue.inner == queue.inner) ≡ true = (==_iff queue.inner queue.inner).1 refl in
      let kept : IsBounded (drain aq rounds q).0 = record {
        positive = omega (arith, b.positive, same);
        bounded = omega (arith, ap length empty);
      } in
      elim (Bool-cases (ltb 0 (drain aq rounds q).1)) [
        | inl some_left ↦ rw some_left (rw own (empty, kept))
        | inr none_left ↦ rw none_left (rw own (empty, kept))
      ]

  -- Popping a frame takes the oldest off a queue within its capacity.
  pub pop_lem :
      (queue : TxQueue) (frame : Bytes) (shared : Shared aq)
      → IsBounded (shared.queues queue.inner)
      → (pop aq queue shared).1 ≡ some frame
      → (aq.contents (shared.queues queue.inner)
          ≡ frame ∷ aq.contents ((pop aq queue shared).0.queues queue.inner))
        × IsBounded ((pop aq queue shared).0.queues queue.inner)
  unfolding pop
  pop_lem queue frame shared b e = go (aq.contents q) refl
    where
      q : aq.Queue
      q = shared.queues queue.inner

      own : (queue.inner == queue.inner) ≡ true
      own = (==_iff queue.inner queue.inner).1 refl

      go :
          (l : List Bytes)
          → aq.contents q ≡ l
          → (aq.contents q ≡ frame ∷ aq.contents ((pop aq queue shared).0.queues queue.inner))
            × IsBounded ((pop aq queue shared).0.queues queue.inner)
      go [] le = let (left, out) = aq.pop_empty q le in cc (out, e)
      go (oldest ∷ rest) le =
          let (left, out) = aq.pop_next q oldest rest le in
          let cap : aq.capacity (aq.pop q).0 ≡ aq.capacity q = aq.capacity-pop q in
          rw own (
            le ∙ cc,
            record {
              positive = omega (arith, b.positive, cap);
              bounded = omega (arith, b.bounded, cap, ap length left, ap length le);
            },
          )
