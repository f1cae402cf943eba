-- ===== src/Router/Registry/Echo.antt =====
-- No frame goes back to the endpoint it came from.
use mavlink_router_rs.Base.{
  ℕ, ◌≡◌, refl, ap, ◌∙◌, false, List, [], ◌∷◌, arith, nat_eq, name_key, ==_iff,
}
use mavlink_router_rs.Base.Table
use mavlink_router_rs.Endpoint.TxQueue.{ArrayQueue, Bytes, on_stats}
use mavlink_router_rs.Mavlink.Frame.{ParsedHeader}
use mavlink_router_rs.Router.Registry.State.{
  RegisteredEndpoint, StatsEvent, TrySend, Router, RouterFrame, SourceAdmission, admitted,
  suppressed,
}
use mavlink_router_rs.Router.Registry.Frames.{
  dispatch_to_destinations, dispatch_admitted, ingest_source_frame, ingest_routable, learn_source,
  touch_own, touch_group, handle_frame,
}
use mavlink_router_rs.Router.Registry.Dispatch.{shares, dispatch_all-own}

module _ (aq : ArrayQueue) (try_send : List StatsEvent → StatsEvent → TrySend)
    (hash : Bytes → ℕ) where
  ingest-queues :
      (src_id : ℕ) (frame : Bytes) (header : ParsedHeader) (now : ℕ) (router : Router aq)
      → ((ingest_source_frame aq try_send hash src_id frame header now router).1.shared.queues
          ≡ router.shared.queues)
  unfolding ingest_source_frame ingest_routable learn_source touch_own touch_group on_stats
  ingest-queues src_id frame header now router = ground arith

  shares-remove :
      (handle id : ℕ) (routing : List (ℕ × RegisteredEndpoint))
      → shares handle id (Table.remove id routing) ≡ shares handle id routing
  unfolding Table.remove
  shares-remove handle id [] = refl
  shares-remove handle id ((other, entry) ∷ routing) =
      ground (arith, shares-remove handle id routing)

  shares-insert :
      (handle id : ℕ) (entry : RegisteredEndpoint) (routing : List (ℕ × RegisteredEndpoint))
      → shares handle id (Table.insert id entry routing) ≡ shares handle id routing
  unfolding Table.insert
  shares-insert handle id entry routing =
      rw ((==_iff id id).1 refl, shares-remove handle id routing) refl

  ingest-shares :
      (handle src_id : ℕ) (frame : Bytes) (header : ParsedHeader) (now : ℕ) (router : Router aq)
      → shares handle src_id
          (ingest_source_frame aq try_send hash src_id frame header now router).1.routing
        ≡ shares handle src_id router.routing
  unfolding ingest_source_frame ingest_routable learn_source touch_own touch_group
  ingest-shares handle src_id frame header now router = grind (arith, shares-insert)

  -- A frame never goes back to the endpoint it came from: the queue of the source, from which no
  -- other endpoint sends, stays as it is whatever the frame, also for a sniffer.
  pub handle_frame-own_queue :
      (message : RouterFrame) (now : ℕ) (router : Router aq) (handle : ℕ)
      → shares handle message.endpoint_id router.routing ≡ false
      → (handle_frame aq try_send hash message now router).shared.queues handle
        ≡ router.shared.queues handle
  unfolding handle_frame dispatch_to_destinations
  handle_frame-own_queue message now router handle s =
      go
        (ingest_source_frame aq try_send hash message.endpoint_id message.frame message.header now
          router)
        (ingest-queues message.endpoint_id message.frame message.header now router)
        (ingest-shares handle message.endpoint_id message.frame message.header now router)
    where
      go :
          (result : SourceAdmission × Router aq)
          → result.1.shared.queues ≡ router.shared.queues
          → shares handle message.endpoint_id result.1.routing
            ≡ shares handle message.endpoint_id router.routing
          → (dispatch_admitted aq try_send hash message result).shared.queues handle
            ≡ router.shared.queues handle
      go (suppressed, after) q e = ap (λ (f : ℕ → aq.Queue). f handle) q
      go (admitted name, after) q e =
          dispatch_all-own aq try_send hash after.groups message.endpoint_id message.frame
            message.header name after.routing after.shared handle (e ∙ s)
          ∙ ap (λ (f : ℕ → aq.Queue). f handle) q
