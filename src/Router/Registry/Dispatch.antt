-- ===== src/Router/Registry/Dispatch.antt =====
-- Where a frame goes: the queues after a dispatch.
use mavlink_router_rs.Base.{
  ℕ, ◌≡◌, refl, Bool, true, false, not, ◌&&◌, ◌||◌, Option, none, some, List, [], ◌∷◌, arith, ◌==◌,
  if◌then◌else◌, Name, nat_eq, Bool-cases, inl, inr, ==_iff, subst,
}
use mavlink_router_rs.Base.Table
use mavlink_router_rs.Base.Table.{Unique}
use mavlink_router_rs.Endpoint.TxQueue
use mavlink_router_rs.Endpoint.TxQueue.{ArrayQueue, Bytes, TxQueue, Shared, on_stats, update}
use mavlink_router_rs.Endpoint.TxQueue.Laws.{push_queue-queues}
use mavlink_router_rs.Mavlink.Frame.{ParsedHeader}
use mavlink_router_rs.Router.Decide.{
  Decision, admit, loop_blocked, out_filter_blocked, target_mismatch, decide,
}
use mavlink_router_rs.Router.Group.{GroupRegistry}
use mavlink_router_rs.Router.Learn.{LearnTable}
use mavlink_router_rs.Router.Registry.State.{
  RegisteredEndpoint, RoutableState, StatsEvent, TrySend, Router, effective_learn,
}
use mavlink_router_rs.Router.Registry.Frames.{
  act_on, decision_for, act_routable, dispatch_one, dispatch_all, dispatch_to_destinations,
  decide_at,
}

-- Whether a routable endpoint sends from a queue.
abbrev pub uses : ℕ → Option RoutableState → Bool
uses queue none = false
uses queue (some state) = state.tx_queue.inner == queue

-- Whether an endpoint other than `id` sends from a queue.
abbrev pub shares : ℕ → ℕ → List (ℕ × RegisteredEndpoint) → Bool
shares queue id [] = false
shares queue id ((other, entry) ∷ routing) =
    (not (other == id) && uses queue entry.routable) || shares queue id routing

module _ (aq : ArrayQueue) (try_send : List StatsEvent → StatsEvent → TrySend)
    (hash : Bytes → ℕ) where
  -- The queue of a destination after a decision: only `admit` pushes the frame.
  abbrev pub after : Option Decision → aq.Queue → Bytes → aq.Queue
  after (some admit) queue frame = (aq.force_push queue frame).0
  after _ queue frame = queue

  module _ (groups : GroupRegistry) (src_id : ℕ) (frame : Bytes) (header : ParsedHeader)
      (src_endpoint_name : Name) where
    act_on-queues :
        (decision : Decision) (stats : ℕ) (queue : TxQueue) (shared : Shared aq) (handle : ℕ)
        → (act_on aq try_send hash decision stats queue frame shared).queues handle ≡ (
            if queue.inner == handle
            then after (some decision) (shared.queues handle) frame
            else shared.queues handle)
    unfolding act_on on_stats TxQueue.push
    act_on-queues admit stats queue shared handle =
        rw
          (push_queue-queues aq queue frame shared
            (aq.force_push (shared.queues queue.inner) frame))
          (elim (Bool-cases (queue.inner == handle)) [
            | inl hit ↦ rw hit (rw ((==_iff queue.inner handle).0 hit) refl)
            | inr miss ↦ rw miss refl
          ])
    act_on-queues out_filter_blocked stats queue shared handle = ground arith
    act_on-queues loop_blocked stats queue shared handle = ground arith
    act_on-queues target_mismatch stats queue shared handle = ground arith

    act_routable-queues :
        (decision : Option Decision) (stats : ℕ) (routable : Option RoutableState)
        (shared : Shared aq) (handle : ℕ)
        → (act_routable aq try_send hash decision stats routable frame shared).queues handle ≡ (
            if uses handle routable
            then after decision (shared.queues handle) frame
            else shared.queues handle)
    act_routable-queues none stats none shared handle = refl
    act_routable-queues none stats (some state) shared handle = ground arith
    act_routable-queues (some decision) stats none shared handle = refl
    act_routable-queues (some decision) stats (some state) shared handle =
        act_on-queues decision stats state.tx_queue shared handle

    dispatch_one-queues :
        (id : ℕ) (entry : RegisteredEndpoint) (shared : Shared aq) (handle : ℕ)
        → (dispatch_one aq try_send hash groups src_id frame header src_endpoint_name id entry
              shared).queues
            handle
          ≡ (if not (id == src_id) && uses handle entry.routable
              then after
                  (decision_for aq try_send hash groups header src_endpoint_name entry.routable)
                  (shared.queues handle)
                  frame
              else shared.queues handle)
    unfolding dispatch_one
    dispatch_one-queues id entry shared handle = ground (
      arith,
      act_routable-queues
          (decision_for aq try_send hash groups header src_endpoint_name entry.routable) entry.stats
          entry.routable shared handle,
    )

    -- A queue that only `id` sends from stays as it is when `id` is not in the registry.
    dispatch_all-absent :
        (routing : List (ℕ × RegisteredEndpoint)) (shared : Shared aq) (handle id : ℕ)
        → Table.get id routing ≡ none
        → shares handle id routing ≡ false
        → (dispatch_all aq try_send hash groups src_id frame header src_endpoint_name routing
              shared).queues
            handle
          ≡ shared.queues handle
    unfolding dispatch_all Table.get
    dispatch_all-absent [] shared handle id g s = refl
    dispatch_all-absent ((other, entry) ∷ routing) shared handle id g s =
        let one = dispatch_one-queues other entry shared handle in
        let next =
          dispatch_one aq try_send hash groups src_id frame header src_endpoint_name other entry
            shared in
        ground (arith, one, dispatch_all-absent routing next handle id)

    -- The queue of a registered endpoint that no other sends from: it takes the frame exactly if
    -- the endpoint is not the source and the decision for it is `admit`.
    dispatch_all-queues :
        (routing : List (ℕ × RegisteredEndpoint)) (shared : Shared aq) (id : ℕ)
        {entry : RegisteredEndpoint} {state : RoutableState}
        → Unique routing
        → Table.get id routing ≡ some entry
        → entry.routable ≡ some state
        → shares state.tx_queue.inner id routing ≡ false
        → (dispatch_all aq try_send hash groups src_id frame header src_endpoint_name routing
              shared).queues
            state.tx_queue.inner
          ≡ (if id == src_id
              then shared.queues state.tx_queue.inner
              else after
                  (decision_for aq try_send hash groups header src_endpoint_name (some state))
                  (shared.queues state.tx_queue.inner)
                  frame)
    unfolding dispatch_all Table.get
    dispatch_all-queues [] shared id u g r s = absurd (cc)
    dispatch_all-queues ((other, first) ∷ routing) shared id {entry = entry} {state = state}
          (fresh, rest) g r s =
        let handle = state.tx_queue.inner in
        let one = dispatch_one-queues other first shared handle in
        let next =
          dispatch_one aq try_send hash groups src_id frame header src_endpoint_name other first
            shared in
        elim (Bool-cases (other == id)) [
          | inl hit ↦
              let same : other ≡ id = (==_iff other id).0 hit in
              let here : first ≡ entry = ground arith in
              let own : uses handle first.routable ≡ true =
                rw (here, r) ((==_iff handle handle).1 refl) in
              let gone : Table.get id routing ≡ none = rw (← same) fresh in
              rw (dispatch_all-absent routing next handle id gone (ground arith))
                (rw (one, own, here, r, same) (ground arith))
          | inr miss ↦
              rw
                (dispatch_all-queues routing next id {entry = entry} {state = state} rest
                  (rw miss at g) r (ground arith))
                (rw one (ground arith))
        ]

    -- A queue that only the source sends from stays as it is.
    pub dispatch_all-own :
        (routing : List (ℕ × RegisteredEndpoint)) (shared : Shared aq) (handle : ℕ)
        → shares handle src_id routing ≡ false
        → (dispatch_all aq try_send hash groups src_id frame header src_endpoint_name routing
              shared).queues
            handle
          ≡ shared.queues handle
    unfolding dispatch_all
    dispatch_all-own [] shared handle s = refl
    dispatch_all-own ((other, entry) ∷ routing) shared handle s =
        let one = dispatch_one-queues other entry shared handle in
        let next =
          dispatch_one aq try_send hash groups src_id frame header src_endpoint_name other entry
            shared in
        ground (arith, one, dispatch_all-own routing next handle)

  -- Dispatching a frame to a destination whose id is its own and whose queue no other endpoint
  -- sends from: the queue takes the frame, by `force_push`, exactly if the destination is not the
  -- source and `decide`, asked with the destination's effective learn table, admits the frame.
  pub dispatch_to_destinations-queues :
      (router : Router aq) (src_id : ℕ) (frame : Bytes) (header : ParsedHeader)
      (src_endpoint_name : Name) (id : ℕ) (entry : RegisteredEndpoint) (state : RoutableState)
      (learn : LearnTable)
      → Unique router.routing
      → Table.get id router.routing ≡ some entry
      → entry.routable ≡ some state
      → effective_learn router.groups state state.identity.group ≡ some learn
      → shares state.tx_queue.inner id router.routing ≡ false
      → (dispatch_to_destinations aq try_send hash src_id frame header src_endpoint_name
            router).shared.queues
          state.tx_queue.inner
        ≡ (if id == src_id
            then router.shared.queues state.tx_queue.inner
            else after
                (some (decide header learn state.identity src_endpoint_name))
                (router.shared.queues state.tx_queue.inner)
                frame)
  unfolding dispatch_to_destinations decision_for
  dispatch_to_destinations-queues router src_id frame header src_endpoint_name id entry state learn
        u g r e s =
      subst
        (λ o.
          (dispatch_to_destinations aq try_send hash src_id frame header src_endpoint_name
              router).shared.queues
            state.tx_queue.inner
          ≡ (if id == src_id
              then router.shared.queues state.tx_queue.inner
              else after (decide_at aq try_send hash router.groups header src_endpoint_name state o)
                  (router.shared.queues state.tx_queue.inner) frame))
        e
        (dispatch_all-queues router.groups src_id frame header src_endpoint_name router.routing
          router.shared id u g r s)
