-- ===== src/Router/Registry/Frames.antt =====
-- The handlers of frames in src/router/mod.rs: admission at the source, and dispatch.
use mavlink_router_rs.Base.{
  ℕ, Option, none, some, List, [], ◌∷◌, ◌==◌, if◌then◌else◌, Name, nat_eq, name_key,
}
use mavlink_router_rs.Base.Table
use mavlink_router_rs.Endpoint.TxQueue
use mavlink_router_rs.Endpoint.TxQueue.{ArrayQueue, Bytes, TxQueue, Shared, on_stats}
use mavlink_router_rs.Mavlink.Frame.{ParsedHeader}
use mavlink_router_rs.Router.Decide.{
  Decision, admit, loop_blocked, out_filter_blocked, target_mismatch, decide,
}
use mavlink_router_rs.Router.Dedup.{check_and_insert}
use mavlink_router_rs.Router.Group.{GroupLearn, GroupRegistry}
use mavlink_router_rs.Router.Learn.{LearnTable, touch, len}
use mavlink_router_rs.Router.Registry.State.{
  RegisteredEndpoint, RoutableState, Router, RouterFrame, SourceAdmission, StatsEvent, TrySend,
  admitted, drop_duplicate, drop_filtered, effective_learn, learned, suppressed,
}

module _ (aq : ArrayQueue) (try_send : List StatsEvent → StatsEvent → TrySend)
    (hash : Bytes → ℕ) where
  -- The learn table of the source is touched, and its length published.
  unfoldable pub touch_own :
      ℕ → RegisteredEndpoint → RoutableState → ParsedHeader → ℕ → Router aq → Router aq
  touch_own src_id src_entry src_routable header now router =
      let learn = (touch src_routable.learn header.source now).0 in
      let entry : RegisteredEndpoint = record src_entry {
        routable = some (record src_routable { learn = learn });
      } in
      record router {
        routing = Table.insert src_id entry router.routing;
        shared = on_stats aq src_entry.stats (learned (len learn)) router.shared;
      }

  unfoldable pub touch_group :
      RegisteredEndpoint → Name → GroupLearn → ParsedHeader → ℕ → Router aq → Router aq
  touch_group src_entry name group header now router =
      let learn = (touch group.learn header.source now).0 in
      record router {
        groups = Table.insert name (record group { learn = learn }) router.groups;
        shared = on_stats aq src_entry.stats (learned (len learn)) router.shared;
      }

  -- The source's effective learn table is touched; a group that is missing suppresses the frame.
  unfoldable pub learn_source :
      ℕ
      → RegisteredEndpoint
      → RoutableState
      → ParsedHeader
      → ℕ
      → Option Name
      → Router aq
      → SourceAdmission × Router aq
  unfolding touch_own touch_group
  learn_source src_id src_entry src_routable header now none router = (
    admitted src_routable.endpoint_name,
    touch_own src_id src_entry src_routable header now router,
  )
  learn_source src_id src_entry src_routable header now (some name) router =
      elim (Table.get name router.groups) [
        | none ↦ (suppressed, router)
        | some group ↦ (
          admitted src_routable.endpoint_name,
          touch_group src_entry name group header now router,
        )
      ]

  -- A source that is routable: the dedup window is asked before anything is learned.
  unfoldable pub ingest_routable :
      ℕ
      → RegisteredEndpoint
      → RoutableState
      → Bytes
      → ParsedHeader
      → ℕ
      → Router aq
      → SourceAdmission × Router aq
  unfolding learn_source
  ingest_routable src_id src_entry src_routable frame header now router =
      let (dedup, duplicate) = check_and_insert hash router.dedup frame now in
      let windowed = record router { dedup = dedup } in
      if duplicate
      then (
        suppressed,
        record windowed { shared = on_stats aq src_entry.stats drop_duplicate router.shared },
      )
      else learn_source src_id src_entry src_routable header now src_routable.identity.group
          windowed

  unfoldable pub ingest_source_frame :
      ℕ → Bytes → ParsedHeader → ℕ → Router aq → SourceAdmission × Router aq
  unfolding ingest_routable
  ingest_source_frame src_id frame header now router = elim (Table.get src_id router.routing) [
    | none ↦ (suppressed, router)
    | some src_entry ↦ elim src_entry.routable [
      | none ↦ (suppressed, router)
      | some src_routable ↦ ingest_routable src_id src_entry src_routable frame header now router
    ]
  ]

  unfoldable pub act_on : Decision → ℕ → TxQueue → Bytes → Shared aq → Shared aq
  act_on admit stats queue frame shared = TxQueue.push aq queue frame shared
  act_on out_filter_blocked stats queue frame shared = on_stats aq stats drop_filtered shared
  act_on loop_blocked stats queue frame shared = shared
  act_on target_mismatch stats queue frame shared = shared

  -- What is decided for a destination; nothing for one that is not routable or whose group is gone.
  abbrev pub decide_at :
      GroupRegistry → ParsedHeader → Name → RoutableState → Option LearnTable → Option Decision
  decide_at groups header src_endpoint_name state none = none
  decide_at groups header src_endpoint_name state (some learn) =
      some (decide header learn state.identity src_endpoint_name)

  unfoldable pub decision_for :
      GroupRegistry → ParsedHeader → Name → Option RoutableState → Option Decision
  decision_for groups header src_endpoint_name none = none
  decision_for groups header src_endpoint_name (some state) =
      decide_at groups header src_endpoint_name state
        (effective_learn groups state state.identity.group)

  abbrev pub act_routable :
      Option Decision → ℕ → Option RoutableState → Bytes → Shared aq → Shared aq
  act_routable (some decision) stats (some state) frame shared =
      act_on decision stats state.tx_queue frame shared
  act_routable _ stats _ frame shared = shared

  -- One round of the loop over the destinations.
  unfoldable pub dispatch_one :
      GroupRegistry
      → ℕ
      → Bytes
      → ParsedHeader
      → Name
      → ℕ
      → RegisteredEndpoint
      → Shared aq
      → Shared aq
  unfolding decision_for act_on
  dispatch_one groups src_id frame header src_endpoint_name dest_id dest_ep shared =
      if dest_id == src_id
      then shared
      else act_routable (decision_for groups header src_endpoint_name dest_ep.routable)
          dest_ep.stats dest_ep.routable frame shared

  unfoldable pub dispatch_all :
      GroupRegistry
      → ℕ
      → Bytes
      → ParsedHeader
      → Name
      → List (ℕ × RegisteredEndpoint)
      → Shared aq
      → Shared aq
  unfolding dispatch_one
  dispatch_all groups src_id frame header src_endpoint_name [] shared = shared
  dispatch_all groups src_id frame header src_endpoint_name ((dest_id, dest_ep) ∷ routing) shared =
      dispatch_all groups src_id frame header src_endpoint_name routing
        (dispatch_one groups src_id frame header src_endpoint_name dest_id dest_ep shared)

  unfoldable pub dispatch_to_destinations : ℕ → Bytes → ParsedHeader → Name → Router aq → Router aq
  unfolding dispatch_all
  dispatch_to_destinations src_id frame header src_endpoint_name router = record router {
    shared =
        dispatch_all router.groups src_id frame header src_endpoint_name router.routing
          router.shared;
  }

  abbrev pub dispatch_admitted : RouterFrame → SourceAdmission × Router aq → Router aq
  unfolding dispatch_to_destinations
  dispatch_admitted message (admitted src_endpoint_name, router) =
      dispatch_to_destinations message.endpoint_id message.frame message.header src_endpoint_name
        router
  dispatch_admitted message (suppressed, router) = router

  unfoldable pub handle_frame : RouterFrame → ℕ → Router aq → Router aq
  unfolding ingest_source_frame
  handle_frame message now router =
      dispatch_admitted message
        (ingest_source_frame message.endpoint_id message.frame message.header now router)
