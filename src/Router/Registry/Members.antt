-- ===== src/Router/Registry/Members.antt =====
-- The groups of the registered endpoints are in the group registry, whatever the router handles.
use mavlink_router_rs.Base.{
  ℕ, ◌≡◌, refl, ap, true, Option, none, some, List, [], ◌∷◌, arith, Name, nat_eq, name_key,
  name_eq_iff, Bool-cases, inl, inr,
}
use mavlink_router_rs.Base.Table
use mavlink_router_rs.Base.Table.{Unique, count, counts}
use mavlink_router_rs.Endpoint.TxQueue.{ArrayQueue, Bytes, Shared}
use mavlink_router_rs.Mavlink.Frame.{ParsedHeader}
use mavlink_router_rs.Router.Dedup.{check_and_insert}
use mavlink_router_rs.Router.Group.{GroupLearn}
use mavlink_router_rs.Router.Group.Laws.{members_in}
use mavlink_router_rs.Router.Learn.{LearnTable}
use mavlink_router_rs.Router.Registry.State.{
  RegisteredEndpoint, RoutableState, EndpointEvent, endpoint_added, peer_added, peer_removed,
  StatsEvent, TrySend, sent_on, channel_full, channel_closed, SourceAdmission, admitted, suppressed,
  Router, Input, event_in, frame_in, RouterFrame, effective_learn, group_learn,
}
use mavlink_router_rs.Router.Registry.Events.{
  new, forward_stats, build_routable_state, register_routable, remove_peer, handle_event,
}
use mavlink_router_rs.Router.Registry.Frames.{
  touch_own, touch_group, learn_source, ingest_routable, ingest_source_frame,
  dispatch_to_destinations, dispatch_admitted, handle_frame,
}
use mavlink_router_rs.Router.Registry.Task.{step, run}
use mavlink_router_rs.Router.Registry.Counted.{
  in_group, IsValid, insert-IsValid, remove-IsValid, replace-IsValid, regroup-IsValid,
}

module _ (aq : ArrayQueue) (try_send : List StatsEvent → StatsEvent → TrySend)
    (hash : Bytes → ℕ) where
  abbrev pub RouterValid : Router aq → Type 0
  RouterValid router = IsValid router.routing router.groups

  forward_stats-routing :
      (event : StatsEvent) (router : Router aq)
      → ((forward_stats aq try_send hash event router).routing ≡ router.routing)
        × ((forward_stats aq try_send hash event router).groups ≡ router.groups)
  unfolding forward_stats
  forward_stats-routing event router = go (try_send router.offered event) refl
    where
      go :
          (t : TrySend)
          → try_send router.offered event ≡ t
          → ((forward_stats aq try_send hash event router).routing ≡ router.routing)
            × ((forward_stats aq try_send hash event router).groups ≡ router.groups)
      go sent_on e = rw (e, forward_stats) (refl, refl)
      go channel_full e = rw (e, forward_stats) (refl, refl)
      go channel_closed e = rw (e, forward_stats) (refl, refl)

  forward_stats-IsValid :
      (event : StatsEvent) (router : Router aq)
      → RouterValid router
      → RouterValid (forward_stats aq try_send hash event router)
  forward_stats-IsValid event router v =
      let (routing, groups) = forward_stats-routing event router in rw (routing, groups) v

  handle_event-IsValid :
      (event : EndpointEvent) (router : Router aq)
      → RouterValid router
      → RouterValid (handle_event aq try_send hash event router)
  unfolding handle_event register_routable build_routable_state remove_peer
  handle_event-IsValid (endpoint_added id name stats none) router v = forward_stats-IsValid _ _ (
      insert-IsValid router.routing router.groups id
        (record { name = name; stats = stats; routable = none }) v)
  handle_event-IsValid (endpoint_added id name stats (some payload)) router v =
      forward_stats-IsValid _ _ (insert-IsValid router.routing router.groups id _ v)
  handle_event-IsValid (peer_added parent_id child_id name stats routable) router v =
      forward_stats-IsValid _ _ (insert-IsValid router.routing router.groups child_id _ v)
  handle_event-IsValid (peer_removed parent_id child_id reason) router v =
      forward_stats-IsValid _ _ (go (Table.get child_id router.routing) refl)
    where
      go :
          (o : Option RegisteredEndpoint)
          → Table.get child_id router.routing ≡ o
          → RouterValid (remove_peer aq try_send hash child_id reason o router)
      go none e = v
      go (some entry) e = remove-IsValid router.routing router.groups child_id v e

  admitted-IsValid :
      (message : RouterFrame) (result : SourceAdmission × Router aq)
      → RouterValid result.1
      → RouterValid (dispatch_admitted aq try_send hash message result)
  unfolding dispatch_to_destinations
  admitted-IsValid message (admitted name, router) v = v
  admitted-IsValid message (suppressed, router) v = v

  learn_source-IsValid :
      (src_id : ℕ) (src_entry : RegisteredEndpoint) (state : RoutableState) (header : ParsedHeader)
      (now : ℕ) (group : Option Name) (router : Router aq)
      → RouterValid router
      → Table.get src_id router.routing ≡ some src_entry
      → src_entry.routable ≡ some state
      → RouterValid (learn_source aq try_send hash src_id src_entry state header now group router).1
  unfolding learn_source touch_own touch_group
  learn_source-IsValid src_id src_entry state header now none router v e r =
      replace-IsValid router.routing router.groups src_id _ v e (rw r refl)
  learn_source-IsValid src_id src_entry state header now (some name) router v e r =
      go (Table.get name router.groups) refl
    where
      go :
          (o : Option GroupLearn)
          → Table.get name router.groups ≡ o
          → RouterValid
              (learn_source aq try_send hash src_id src_entry state header now (some name) router).1
      go none m = rw (m, learn_source) v
      go (some group) m =
          rw (m, learn_source) (regroup-IsValid router.routing router.groups name _ v m refl)

  ingest_source_frame-IsValid :
      (src_id : ℕ) (frame : Bytes) (header : ParsedHeader) (now : ℕ) (router : Router aq)
      → RouterValid router
      → RouterValid (ingest_source_frame aq try_send hash src_id frame header now router).1
  unfolding ingest_source_frame ingest_routable
  ingest_source_frame-IsValid src_id frame header now router v =
      go (Table.get src_id router.routing) refl
    where
      within :
          (entry : RegisteredEndpoint) (o : Option RoutableState)
          → Table.get src_id router.routing ≡ some entry
          → entry.routable ≡ o
          → RouterValid (ingest_source_frame aq try_send hash src_id frame header now router).1
      within entry none e r = rw (e, ingest_source_frame) (rw r v)
      within entry (some state) e r =
          rw (e, ingest_source_frame)
            (rw r (elim (Bool-cases (check_and_insert hash router.dedup frame now).1) [
              | inl hit ↦ rw hit v
              | inr miss ↦ rw miss (
                  learn_source-IsValid src_id entry state header now state.identity.group
                    (record router { dedup = (check_and_insert hash router.dedup frame now).0 }) v e
                    r)
            ]))

      go :
          (o : Option RegisteredEndpoint)
          → Table.get src_id router.routing ≡ o
          → RouterValid (ingest_source_frame aq try_send hash src_id frame header now router).1
      go none e = rw (e, ingest_source_frame) v
      go (some entry) e = within entry entry.routable e refl

  -- A step of the router keeps every endpoint's id its own and every group counted.
  pub step-IsValid :
      (input : Input) (router : Router aq)
      → RouterValid router
      → RouterValid (step aq try_send hash input router)
  unfolding step handle_frame
  step-IsValid (event_in event) router v = handle_event-IsValid event router v
  step-IsValid (frame_in message now) router v =
      admitted-IsValid message _
        (ingest_source_frame-IsValid message.endpoint_id message.frame message.header now router v)

  run-IsValid :
      (inputs : List Input) (router : Router aq)
      → RouterValid router
      → RouterValid (run aq try_send hash inputs router)
  unfolding run
  run-IsValid [] router v = v
  run-IsValid (input ∷ inputs) router v = run-IsValid inputs _ (step-IsValid input router v)

  pub new-IsValid :
      (dedup_ms capacity : ℕ) (shared : Shared aq)
      → RouterValid (new aq try_send hash dedup_ms capacity shared)
  unfolding new count
  new-IsValid dedup_ms capacity shared = record { unique = tt; counted = λ name. omega arith }

  -- An endpoint of a group finds the group's learn table.
  group_present :
      (router : Router aq) (id : ℕ) (entry : RegisteredEndpoint) (state : RoutableState)
      (group : Option Name)
      → RouterValid router
      → Table.get id router.routing ≡ some entry
      → entry.routable ≡ some state
      → state.identity.group ≡ group
      → (learn : LearnTable) × (effective_learn router.groups state group ≡ some learn)
  group_present router id entry state none v e r g = (state.learn, refl)
  group_present router id entry state (some name) v e r g = go (Table.get name router.groups) refl
    where
      go :
          (o : Option GroupLearn)
          → Table.get name router.groups ≡ o
          → (learn : LearnTable) × (group_learn (Table.get name router.groups) ≡ some learn)
      go (some group) m = (group.learn, rw m refl)
      go none m =
          let member : in_group name entry ≡ true = rw (r, g) ((name_eq_iff name name).1 refl) in
          absurd (
            omega (
              arith,
              Table.count-get (in_group name) id router.routing e member,
              v.counted name,
              ap members_in m,
            ))

  -- After any events and frames, a registered endpoint that is routable has its effective learn
  -- table: its own, or that of its group, which is in the group registry.
  pub run-effective_learn :
      (dedup_ms capacity : ℕ) (inputs : List Input) (shared : Shared aq) (id : ℕ)
      (entry : RegisteredEndpoint) (state : RoutableState)
      → Table.get id
          (run aq try_send hash inputs (new aq try_send hash dedup_ms capacity shared)).routing
        ≡ some entry
      → entry.routable ≡ some state
      → (learn : LearnTable) × (effective_learn
            (run aq try_send hash inputs (new aq try_send hash dedup_ms capacity shared)).groups
            state
            state.identity.group
          ≡ some learn)
  run-effective_learn dedup_ms capacity inputs shared id entry state e r =
      group_present (run aq try_send hash inputs (new aq try_send hash dedup_ms capacity shared)) id
        entry state state.identity.group
        (run-IsValid inputs _ (new-IsValid dedup_ms capacity shared)) e r refl
