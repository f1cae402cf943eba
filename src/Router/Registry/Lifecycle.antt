-- ===== src/Router/Registry/Lifecycle.antt =====
-- The end of an endpoint: a peer that is removed, and the sweep at shutdown.
use mavlink_router_rs.Base.{
  ℕ, ◌-◌, ◌≡◌, refl, sym, ap, ◌∙◌, none, some, List, [], ◌∷◌, ◌++◌, arith, ◌==◌, if◌then◌else◌,
  Name, nat_eq, Bool-cases, inl, inr, ==_iff,
}
use mavlink_router_rs.Base.Table
use mavlink_router_rs.Endpoint.Stats.{
  EndpointState, idle, down, load_state, store_state, load_state-store_state,
}
use mavlink_router_rs.Endpoint.TxQueue.{ArrayQueue, Bytes, Shared, on_stats}
use mavlink_router_rs.Router.Group.Laws.{members}
use mavlink_router_rs.Router.Registry.State.{
  RegisteredEndpoint, StatsEvent, finalize, TrySend, sent_on, channel_full, channel_closed, Router,
  PeerRemovalReason, peer_removed, idle_peer, lru_evicted, disconnected, listener_shutdown,
  final_state, group_of,
}
use mavlink_router_rs.Router.Registry.Events.{forward_stats, remove_peer, handle_event}
use mavlink_router_rs.Router.Registry.Task.{sweep, shutdown_sweep}
use mavlink_router_rs.Router.Registry.Counted.{named, members-leave_group}

-- The `Finalize` events of a list of endpoints.
abbrev pub finalize_all : List (ℕ × RegisteredEndpoint) → List StatsEvent
finalize_all [] = []
finalize_all ((id, entry) ∷ routing) = finalize id ∷ finalize_all routing

-- What the state of a removed peer has to be: idle after a long silence, and otherwise down.
abbrev pub state_after : PeerRemovalReason → EndpointState
state_after idle_peer = idle
state_after lru_evicted = down
state_after disconnected = down
state_after listener_shutdown = down

final_state_lem : (reason : PeerRemovalReason) → final_state reason ≡ state_after reason
unfolding final_state
final_state_lem idle_peer = refl
final_state_lem lru_evicted = refl
final_state_lem disconnected = refl
final_state_lem listener_shutdown = refl

module _ (aq : ArrayQueue) (try_send : List StatsEvent → StatsEvent → TrySend)
    (hash : Bytes → ℕ) where
  forward_stats-shared :
      (event : StatsEvent) (router : Router aq)
      → ((forward_stats aq try_send hash event router).shared ≡ router.shared)
        × ((forward_stats aq try_send hash event router).routing ≡ router.routing)
        × ((forward_stats aq try_send hash event router).groups ≡ router.groups)
  unfolding forward_stats
  forward_stats-shared event router = go (try_send router.offered event) refl
    where
      go :
          (t : TrySend)
          → try_send router.offered event ≡ t
          → ((forward_stats aq try_send hash event router).shared ≡ router.shared)
            × ((forward_stats aq try_send hash event router).routing ≡ router.routing)
            × ((forward_stats aq try_send hash event router).groups ≡ router.groups)
      go sent_on e = rw (e, forward_stats) (refl, refl, refl)
      go channel_full e = rw (e, forward_stats) (refl, refl, refl)
      go channel_closed e = rw (e, forward_stats) (refl, refl, refl)

  stored :
      (handle : ℕ) (state : EndpointState) (shared : Shared aq)
      → load_state ((on_stats aq handle (store_state state) shared).stats handle) ≡ state
  unfolding on_stats
  stored handle state shared =
      rw ((==_iff handle handle).1 refl) (load_state-store_state state (shared.stats handle))

  -- When a registered peer is removed, no other endpoint is; its group has one member less and
  -- every other group as many as before; its final state is `Idle` for an idle peer and
  -- `Down` for the other reasons.
  pub handle_event-peer_removed :
      (router : Router aq) (parent_id child_id : ℕ) (reason : PeerRemovalReason)
      (entry : RegisteredEndpoint) (id : ℕ) (group : Name)
      → Table.get child_id router.routing ≡ some entry
      → (Table.get id
            (handle_event aq try_send hash (peer_removed parent_id child_id reason) router).routing
          ≡ (if child_id == id then none else Table.get id router.routing))
        × (members group
              (handle_event aq try_send hash (peer_removed parent_id child_id reason) router).groups
            ≡ members group router.groups
              - (if named group (group_of entry.routable) then 1 else 0))
        × (load_state (
              (handle_event aq try_send hash
                  (peer_removed parent_id child_id reason)
                  router).shared.stats
                entry.stats)
            ≡ state_after reason)
  unfolding handle_event remove_peer
  handle_event-peer_removed router parent_id child_id reason entry id group e =
      let gone = remove_peer aq try_send hash child_id reason (some entry) router in
      let (shared, routing, groups) = forward_stats-shared (finalize child_id) gone in
      rw (e, handle_event)
        (
          rw routing (Table.get-remove child_id id router.routing),
          rw groups (members-leave_group router.groups (group_of entry.routable) group),
          rw shared
              (stored entry.stats (final_state reason) router.shared ∙ final_state_lem reason),
        )

  stays_down :
      (handle other : ℕ) (shared : Shared aq)
      → load_state (shared.stats other) ≡ down
      → load_state ((on_stats aq handle (store_state down) shared).stats other) ≡ down
  unfolding on_stats
  stays_down handle other shared h = elim (Bool-cases (handle == other)) [
    | inl hit ↦ rw hit (load_state-store_state down (shared.stats handle))
    | inr miss ↦ rw miss h
  ]

  sweep-stays_down :
      (routing : List (ℕ × RegisteredEndpoint)) (router : Router aq) (handle : ℕ)
      → load_state (router.shared.stats handle) ≡ down
      → load_state ((sweep aq try_send hash routing router).shared.stats handle) ≡ down
  unfolding sweep
  sweep-stays_down [] router handle h = h
  sweep-stays_down ((id, entry) ∷ routing) router handle h =
      let marked = record router {
        shared = on_stats aq entry.stats (store_state down) router.shared;
      } in
      sweep-stays_down routing _ handle (
        rw (forward_stats-shared (finalize id) marked).0
          (stays_down entry.stats handle router.shared h))

  sweep-down :
      (routing : List (ℕ × RegisteredEndpoint)) (router : Router aq) (id : ℕ)
      {entry : RegisteredEndpoint}
      → Table.get id routing ≡ some entry
      → load_state ((sweep aq try_send hash routing router).shared.stats entry.stats) ≡ down
  unfolding sweep Table.get
  sweep-down [] router id g = absurd (cc)
  sweep-down ((other, first) ∷ routing) router id {entry = entry} g =
      elim (Bool-cases (other == id)) [
        | inl hit ↦
            let here : first ≡ entry = ground arith in
            let marked = record router {
              shared = on_stats aq first.stats (store_state down) router.shared;
            } in
            sweep-stays_down routing _ entry.stats (
              rw (forward_stats-shared (finalize other) marked).0
                (rw (← here) (stored first.stats down router.shared)))
        | inr miss ↦ sweep-down routing _ id {entry = entry} (rw miss at g)
      ]

  sweep-routing :
      (routing : List (ℕ × RegisteredEndpoint)) (router : Router aq)
      → (sweep aq try_send hash routing router).routing ≡ router.routing
  unfolding sweep
  sweep-routing [] router = refl
  sweep-routing ((id, entry) ∷ routing) router =
      let marked = record router {
        shared = on_stats aq entry.stats (store_state down) router.shared;
      } in
      sweep-routing routing _ ∙ (forward_stats-shared (finalize id) marked).1

  -- The sweep at shutdown empties the registry, and leaves every endpoint that was registered in
  -- the state `Down`, even if the channel to the stats task takes no event.
  pub shutdown_sweep-down :
      (router : Router aq) (id : ℕ) (entry : RegisteredEndpoint)
      → Table.get id router.routing ≡ some entry
      → ((shutdown_sweep aq try_send hash router).routing ≡ [])
        × (load_state ((shutdown_sweep aq try_send hash router).shared.stats entry.stats) ≡ down)
  unfolding shutdown_sweep
  shutdown_sweep-down router id entry g =
      (sweep-routing router.routing _, sweep-down router.routing _ id g)

  append_snoc :
      (xs : List StatsEvent) (y : StatsEvent) (zs : List StatsEvent)
      → (xs ++ y ∷ []) ++ zs ≡ xs ++ y ∷ zs
  append_snoc [] y zs = refl
  append_snoc (x ∷ xs) y zs = ap (◌∷◌ x) (append_snoc xs y zs)

  append_nil : (xs : List StatsEvent) → xs ++ [] ≡ xs
  append_nil [] = refl
  append_nil (x ∷ xs) = ap (◌∷◌ x) (append_nil xs)

  sweep-sent :
      (routing : List (ℕ × RegisteredEndpoint)) (router : Router aq)
      → ((sent : List StatsEvent) (event : StatsEvent) → try_send sent event ≡ sent_on)
      → (sweep aq try_send hash routing router).sent ≡ router.sent ++ finalize_all routing
  unfolding sweep forward_stats
  sweep-sent [] router h = sym (append_nil router.sent)
  sweep-sent ((id, entry) ∷ routing) router h =
      rw (h router.offered (finalize id), sweep, forward_stats)
        (sweep-sent routing _ h ∙ append_snoc router.sent (finalize id) (finalize_all routing))

  -- If the channel to the stats task has room for every event, the sweep sends one `Finalize` for
  -- each endpoint that was registered, and drops none.
  pub shutdown_sweep-sent :
      (router : Router aq)
      → ((sent : List StatsEvent) (event : StatsEvent) → try_send sent event ≡ sent_on)
      → (shutdown_sweep aq try_send hash router).sent ≡ router.sent ++ finalize_all router.routing
  unfolding shutdown_sweep
  shutdown_sweep-sent router h = sweep-sent router.routing _ h
