-- ===== src/Router/Registry/Ingest.antt =====
-- What the router learns from a frame before it dispatches it, and what it decides afterwards.
use mavlink_router_rs.Base.{
  ℕ, ◌≡◌, refl, Bool, true, false, Option, none, some, List, arith, Name, nat_eq, name_key,
  Bool-cases, inl, inr, ==_iff, name_eq_iff,
}
use mavlink_router_rs.Base.Table
use mavlink_router_rs.Endpoint.Filters.{IdentityFlags}
use mavlink_router_rs.Endpoint.TxQueue.{ArrayQueue, Bytes}
use mavlink_router_rs.Mavlink.Frame.{ParsedHeader}
use mavlink_router_rs.Router.Decide.{Decision, loop_blocked, decide}
use mavlink_router_rs.Router.Dedup.{check_and_insert}
use mavlink_router_rs.Router.Group.{GroupRegistry, GroupLearn}
use mavlink_router_rs.Router.Learn.{LearnTable, contains, touch}
use mavlink_router_rs.Router.Learn.Laws.{contains-touch_self}
use mavlink_router_rs.Router.Registry.State.{
  RegisteredEndpoint, RoutableState, StatsEvent, TrySend, Router, admitted,
}
use mavlink_router_rs.Router.Registry.Frames.{
  decision_for, ingest_source_frame, ingest_routable, learn_source, touch_own, touch_group,
}

abbrev sniffing : Option RoutableState → Bool
sniffing none = false
sniffing (some state) = state.identity.sniffer

abbrev sniffing_at : Option RegisteredEndpoint → Bool
sniffing_at none = false
sniffing_at (some entry) = sniffing entry.routable

module _ (aq : ArrayQueue) (try_send : List StatsEvent → StatsEvent → TrySend)
    (hash : Bytes → ℕ) where
  -- Whether a registered endpoint is a sniffer.
  abbrev pub sniffs : Router aq → ℕ → Bool
  sniffs router id = sniffing_at (Table.get id router.routing)

  abbrev decision_at_entry :
      GroupRegistry → ParsedHeader → Name → Option RegisteredEndpoint → Option Decision
  decision_at_entry groups header name none = none
  decision_at_entry groups header name (some entry) =
      decision_for aq try_send hash groups header name entry.routable

  -- What the router decides on a frame for the endpoint with an id.
  abbrev pub decision_at : Router aq → ℕ → ParsedHeader → Name → Option Decision
  decision_at router id header name =
      decision_at_entry router.groups header name (Table.get id router.routing)

  -- An endpoint whose learn table holds the source of a frame does not take it.
  decide-contained :
      (header : ParsedHeader) (learn : LearnTable) (identity : IdentityFlags) (name : Name)
      → identity.sniffer ≡ false
      → contains learn header.source ≡ true
      → decide header learn identity name ≡ loop_blocked
  unfolding decide
  decide-contained header learn identity name plain_one held = rw (plain_one, held) refl

  module _ (src_id : ℕ) (header other : ParsedHeader) (now : ℕ) (other_name : Name)
      (same : other.source ≡ header.source) where
    contained :
        (table : LearnTable) → contains (touch table header.source now).0 other.source ≡ true
    contained table = rw same (contains-touch_self table header.source now)

    learned_own :
        (entry : RegisteredEndpoint) (state : RoutableState) (router : Router aq)
        → state.identity.sniffer ≡ false
        → state.identity.group ≡ none
        → decision_at
            (touch_own aq try_send hash src_id entry state header now router)
            src_id
            other
            other_name
          ≡ some loop_blocked
    unfolding touch_own decision_for decide
    learned_own entry state router quiet alone =
        let learn = (touch state.learn header.source now).0 in
        let after : RegisteredEndpoint = record entry {
          routable = some (record state { learn = learn });
        } in
        rw (Table.get-insert src_id src_id after router.routing, (==_iff src_id src_id).1 refl)
          (rw alone (
            rw
              (decide-contained other learn state.identity other_name quiet (contained state.learn))
              refl))

    learned_group :
        (entry : RegisteredEndpoint) (state : RoutableState) (router : Router aq) (name : Name)
        (group : GroupLearn)
        → Table.get src_id router.routing ≡ some entry
        → entry.routable ≡ some state
        → state.identity.sniffer ≡ false
        → state.identity.group ≡ some name
        → decision_at
            (touch_group aq try_send hash entry name group header now router)
            src_id
            other
            other_name
          ≡ some loop_blocked
    unfolding touch_group decision_for decide
    learned_group entry state router name group e r quiet grouped =
        let learn = (touch group.learn header.source now).0 in
        let after : GroupLearn = record group { learn = learn } in
        rw
          (
            e,
            r,
            grouped,
            Table.get-insert name name after router.groups,
            (name_eq_iff name name).1 refl,
          )
          (rw (decide-contained other learn state.identity other_name quiet (contained group.learn))
            refl)

    learned :
        (entry : RegisteredEndpoint) (state : RoutableState) (router : Router aq) (name : Name)
        (g : Option Name)
        → Table.get src_id router.routing ≡ some entry
        → entry.routable ≡ some state
        → state.identity.sniffer ≡ false
        → state.identity.group ≡ g
        → (learn_source aq try_send hash src_id entry state header now g router).0 ≡ admitted name
        → decision_at
            (learn_source aq try_send hash src_id entry state header now g router).1
            src_id
            other
            other_name
          ≡ some loop_blocked
    unfolding learn_source
    learned entry state router name none e r quiet g a = learned_own entry state router quiet g
    learned entry state router name (some group_name) e r quiet g a =
        go (Table.get group_name router.groups) refl
      where
        go :
            (o : Option GroupLearn)
            → Table.get group_name router.groups ≡ o
            → decision_at
                (learn_source aq try_send hash src_id entry state header now
                  (some group_name)
                  router).1
                src_id
                other
                other_name
              ≡ some loop_blocked
        go none m = absurd (ground (arith, m))
        go (some group) m =
            rw (m, learn_source) (learned_group entry state router group_name group e r quiet g)

    -- In the state that is left when a frame from an endpoint was admitted, before any other frame
    -- is learned, the router decides `loop_blocked` for that endpoint on every frame with the same
    -- source node, from whatever endpoint it arrives, unless the endpoint is a sniffer.
    pub ingest-loop_blocked :
        (router : Router aq) (frame : Bytes) (name : Name)
        → sniffs router src_id ≡ false
        → (ingest_source_frame aq try_send hash src_id frame header now router).0 ≡ admitted name
        → decision_at
            (ingest_source_frame aq try_send hash src_id frame header now router).1
            src_id
            other
            other_name
          ≡ some loop_blocked
    unfolding ingest_source_frame ingest_routable
    ingest-loop_blocked router frame name quiet a = go (Table.get src_id router.routing) refl
      where
        within :
            (entry : RegisteredEndpoint) (o : Option RoutableState)
            → Table.get src_id router.routing ≡ some entry
            → entry.routable ≡ o
            → decision_at
                (ingest_source_frame aq try_send hash src_id frame header now router).1
                src_id
                other
                other_name
              ≡ some loop_blocked
        within entry none e r = absurd (ground (arith, e, r))
        within entry (some state) e r =
            elim (Bool-cases (check_and_insert hash router.dedup frame now).1) [
              | inl hit ↦ absurd (ground (arith, e, r, hit))
              | inr miss ↦
                  let windowed = record router {
                    dedup = (check_and_insert hash router.dedup frame now).0;
                  } in
                  rw (e, ingest_source_frame)
                    (rw r (
                      rw miss (
                        learned entry state windowed name state.identity.group e r
                          (rw (e, r) at quiet) refl
                          (rw miss at (rw r at (rw (e, ingest_source_frame) at a))))))
            ]

        go :
            (o : Option RegisteredEndpoint)
            → Table.get src_id router.routing ≡ o
            → decision_at
                (ingest_source_frame aq try_send hash src_id frame header now router).1
                src_id
                other
                other_name
              ≡ some loop_blocked
        go none e = absurd (ground (arith, e))
        go (some entry) e = within entry entry.routable e refl
