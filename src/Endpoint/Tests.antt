-- ===== src/Endpoint/Tests.antt =====
-- Runs of the parts of an endpoint on small concrete states.
use mavlink_router_rs.Endpoint.Backoff.{Backoff}
use mavlink_router_rs.Endpoint.Backoff.Laws.{failures, doubled, failures-current}
use mavlink_router_rs.Base.{
  min, suc, ◌≡◌, ◌↔◌, refl, Bool, true, List, [], ◌∷◌, ◌++◌, some, none, arith, length, drop, Name,
}
use mavlink_router_rs.Base.Entries.{find}
use mavlink_router_rs.Endpoint.Filters.{Filters, no_filters, passes_in_filter, passes_out_filter}
use mavlink_router_rs.Endpoint.Filters.Laws.{
  Passes, InRange, passes_in_filter_iff, passes_out_filter_iff,
}
use mavlink_router_rs.Endpoint.SeqTracker.{SeqTracker}
use mavlink_router_rs.Endpoint.SeqTracker.Laws.{last_seq, run, sum, run-sum}
use mavlink_router_rs.Endpoint.Session.{Inbound, SessionEvent, read, frame_out, run_session, start}
use mavlink_router_rs.Endpoint.Session.Refines.{stream, run_session-sent}
use mavlink_router_rs.Endpoint.Session.Laws.{passing, yields}
use mavlink_router_rs.Endpoint.Stats as Stats
use mavlink_router_rs.Endpoint.Stats.{connected, fetch_add}
use mavlink_router_rs.Endpoint.TxQueue.{TxQueue, Shared, push, drain_and_discard}
use mavlink_router_rs.Endpoint.TxQueue.Bounded.{list_queue}
use mavlink_router_rs.Endpoint.TxQueue.Laws.{IsBounded, overflow, push_lem, drain_and_discard_lem}
use mavlink_router_rs.Mavlink.Frame.{NodeId, node_beq}

abbrev drone : NodeId
drone = record { sys = 1; comp = 1 }

-- Only heartbeats come in, and none from component 2.
abbrev heartbeats : Filters
heartbeats = record no_filters {
  allow_msgid_in = record { lo = 0; hi = 0 } ∷ [];
  block_src_comp_in = record { lo = 2; hi = 2 } ∷ [];
}

passes_in_filter_iff_example : (passes_in_filter heartbeats 0 drone ≡ true) ↔ (
    Passes (InRange 0) heartbeats.allow_msgid_in heartbeats.block_msgid_in
    × (Passes (InRange 1) heartbeats.allow_src_sys_in heartbeats.block_src_sys_in
        × Passes (InRange 1) heartbeats.allow_src_comp_in heartbeats.block_src_comp_in))
passes_in_filter_iff_example = passes_in_filter_iff heartbeats 0 drone

passes_out_filter_iff_example : (passes_out_filter heartbeats 0 drone (1 ∷ []) ≡ true) ↔ (
    Passes (InRange 0) heartbeats.allow_msgid_out heartbeats.block_msgid_out
    × (Passes (InRange 1) heartbeats.allow_src_sys_out heartbeats.block_src_sys_out
        × (Passes (InRange 1) heartbeats.allow_src_comp_out heartbeats.block_src_comp_out
            × Passes
                (λ (entry : Name). entry ≡ 1 ∷ [])
                heartbeats.allow_src_endpoint_out
                heartbeats.block_src_endpoint_out)))
passes_out_filter_iff_example = passes_out_filter_iff heartbeats 0 drone (1 ∷ [])

-- The drone was last seen with the sequence number 254.
abbrev tracker : SeqTracker
tracker = record {
  entries = record { node = drone; last_seq = 254; last_seen = 0 } ∷ [];
  capacity = 32;
  threshold = 64;
}

run-sum_example : run tracker drone 254 5 (3 ∷ 0 ∷ []) ≡ sum (3 ∷ 0 ∷ [])
unfolding last_seq find node_beq
run-sum_example =
    run-sum (3 ∷ 0 ∷ []) tracker drone 254 5 (refl, tt) refl (omega arith) (omega arith)
      (omega arith, (omega arith, tt))

abbrev queue : TxQueue
queue = record { inner = 0; stats = 0 }

-- A queue of two frames, which is full.
abbrev full_store : Shared list_queue
full_store = record {
  queues = λ handle. record { items = (1 ∷ []) ∷ (2 ∷ []) ∷ []; bound = 2 };
  stats = λ handle. Stats.new connected;
}

push_lem_example :
    (((push list_queue queue (3 ∷ []) full_store).queues 0).items
      ≡ drop
          (overflow list_queue (full_store.queues 0))
          ((full_store.queues 0).items ++ (3 ∷ []) ∷ []))
    × IsBounded list_queue ((push list_queue queue (3 ∷ []) full_store).queues 0)
    × (((push list_queue queue (3 ∷ []) full_store).stats 0).dropped_tx
        ≡ fetch_add (full_store.stats 0).dropped_tx (overflow list_queue (full_store.queues 0)))
unfolding Stats.new
push_lem_example =
    push_lem list_queue queue (3 ∷ []) full_store
      (record { positive = omega arith; bounded = omega arith }) (omega arith)

drain_and_discard_lem_example :
    (((drain_and_discard list_queue queue full_store).0.queues 0).items ≡ [])
    × ((drain_and_discard list_queue queue full_store).1 ≡ length (full_store.queues 0).items)
    × (((drain_and_discard list_queue queue full_store).0.stats 0).dropped_tx
        ≡ fetch_add (full_store.stats 0).dropped_tx (length (full_store.queues 0).items))
unfolding Stats.new
drain_and_discard_lem_example = drain_and_discard_lem list_queue queue full_store (omega arith)

abbrev always : List Inbound → Bool
always sent = true

-- A v1 frame of an unknown msgid comes in two reads, and a frame goes out in between.
abbrev exchange : List SessionEvent
exchange =
    read (some (0xFE ∷ 0 ∷ 0 ∷ [])) 5
    ∷ frame_out (9 ∷ []) true
    ∷ read (some (1 ∷ 1 ∷ 9 ∷ 0 ∷ 0 ∷ [])) 6
    ∷ []

run_session-sent_example :
    ((run_session [] always 4 heartbeats exchange (start (Stats.new connected))).0 ≡ none)
    × ((run_session [] always 4 heartbeats exchange (start (Stats.new connected))).1.sent
        ≡ passing [] always 4 heartbeats (
            yields []
              (suc (length (stream exchange)))
              (record { buf = stream exchange; resync_bytes = 0; crc_errors = 0 })))
run_session-sent_example =
    run_session-sent [] always 4 heartbeats (λ sent. refl) exchange (Stats.new connected) tt

abbrev backoff : Backoff
backoff = record { initial = 100; max_delay = 1000; current = 400; rng = 12345 }

failures-current_example : (failures 3 backoff).current ≡ min (doubled 3 400) 1000
failures-current_example = failures-current 3 backoff (omega arith)
