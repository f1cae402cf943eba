-- ===== src/Endpoint/Session.antt =====
-- The reader and the writer of a session: src/endpoint/session.rs. The channel to the router and
-- the stream are of the crate tokio: `is_open` says whether the channel still takes a frame after
-- those that were sent, and the results of reads and writes are inputs. The clock is a number.
pub mod Laws
pub mod Stream
pub mod Refines
use mavlink_router_rs.Base.{
  ℕ, zero, suc, ◌+◌, Bool, true, false, not, Option, none, some, List, [], ◌∷◌, ◌++◌, ltb,
  if◌then◌else◌, length,
}
use mavlink_router_rs.Endpoint.Filters.{Filters, passes_in_filter}
use mavlink_router_rs.Endpoint.SeqTracker
use mavlink_router_rs.Endpoint.SeqTracker.{SeqTracker, observe}
use mavlink_router_rs.Endpoint.Stats.{
  EndpointStats, FramerCounters, no_counters, fetch_add, add_rx_frame, add_tx_frame, sync,
}
use mavlink_router_rs.Mavlink.Frame.{ParsedHeader, MsgEntry}
use mavlink_router_rs.Mavlink.Framer.{Framer, Outcome, emitted, pending, exhausted, try_next_frame}

pub data SessionOutcome : Type 0 where
  terminated disconnected : SessionOutcome

-- What the loop of a session takes: the cancellation, the result of a read, or a frame to write and
-- whether it was written.
pub data SessionEvent : Type 0 where
  cancelled : SessionEvent
  read : (res : Option (List ℕ)) (now : ℕ) → SessionEvent
  frame_out : (frame : List ℕ) (written : Bool) → SessionEvent

-- A frame on its way to the router.
pub record Inbound : Type 0 where
  pub endpoint_id : ℕ
  pub frame : List ℕ
  pub header : ParsedHeader

-- The state of a session: its framer and tracker, the counters of its endpoint, and the frames it
-- sent to the router.
pub record Session : Type 0 where
  pub framer : Framer
  pub framer_counters : FramerCounters
  pub seq_tracker : SeqTracker
  pub stats : EndpointStats
  pub sent : List Inbound

abbrev pub seq_tracker_capacity : ℕ
seq_tracker_capacity = 32

-- `ControlFlow`, or that the rounds allowed ran out.
pub data Flow : Type 0 where
  proceed break_off out_of_rounds : Flow

abbrev add_lost : ℕ → EndpointStats → EndpointStats
add_lost lost stats =
    if ltb 0 lost then record stats { rx_lost_est = fetch_add stats.rx_lost_est lost } else stats

abbrev drop_at_ingress : EndpointStats → EndpointStats
drop_at_ingress stats = record stats { in_filter_drops = fetch_add stats.in_filter_drops 1 }

-- The bytes that a read appends to the framer's buffer.
abbrev pub append_bytes : List ℕ → Framer → Framer
append_bytes bytes framer = record framer { buf = framer.buf ++ bytes }

-- `run_session` before its loop.
unfoldable pub start : EndpointStats → Session
unfolding SeqTracker.new
start stats = record {
  framer = record { buf = []; resync_bytes = 0; crc_errors = 0 };
  framer_counters = no_counters;
  seq_tracker = SeqTracker.new seq_tracker_capacity;
  stats = stats;
  sent = [];
}

module _ (sorted : List (ℕ × MsgEntry)) (is_open : List Inbound → Bool) (endpoint_id : ℕ)
    (filters : Filters) where
  -- A frame is counted, and its sequence number observed.
  unfoldable pub count_frame : ParsedHeader → List ℕ → ℕ → Session → Session
  unfolding add_rx_frame
  count_frame header frame now session =
      let (seq_tracker, lost) = observe session.seq_tracker header.source header.seq now in
      record session {
        seq_tracker = seq_tracker;
        stats = add_lost lost (add_rx_frame (length frame) session.stats);
      }

  -- The body of the loop of `forward_inbound_frames` for one frame, and whether the loop goes on.
  unfoldable pub forward_frame : ParsedHeader → List ℕ → ℕ → Session → Bool × Session
  unfolding count_frame
  forward_frame header frame now session =
      let counted = count_frame header frame now session in
      if not (passes_in_filter filters header.msgid header.source)
      then (true, record counted { stats = drop_at_ingress counted.stats })
      else if is_open counted.sent
      then (
        true,
        record counted {
          sent =
              counted.sent
              ++ record { endpoint_id = endpoint_id; frame = frame; header = header } ∷ [];
        },
      )
      else (false, counted)

  unfoldable pub forward : ℕ → ℕ → Session → Flow × Session
  unfolding forward_frame
  forward zero now session = (out_of_rounds, session)
  forward (suc rounds) now session =
      let scanned = record session { framer = (try_next_frame sorted session.framer).1 } in
      elim ((try_next_frame sorted session.framer).0) [
        | exhausted ↦ (out_of_rounds, scanned)
        | pending ↦ (proceed, scanned)
        | emitted header frame ↦
            let (goes_on, next) = forward_frame header frame now scanned in
            elim goes_on [ true ↦ forward rounds now next | false ↦ (break_off, next) ]
      ]

  -- Every frame takes bytes from the buffer, so one round more than there are bytes is enough.
  unfoldable pub forward_inbound_frames : ℕ → Session → Flow × Session
  unfolding forward
  forward_inbound_frames now session = forward (suc (length session.framer.buf)) now session

  abbrev pub after_forward : Flow × Session → Option SessionOutcome × Session
  after_forward (break_off, session) = (some terminated, session)
  after_forward (_, session) =
      let (counters, stats) = sync session.framer_counters session.framer session.stats in
      (none, record session { framer_counters = counters; stats = stats })

  -- `none` for a read that failed; otherwise the bytes that were read, none at the end of file.
  unfoldable pub handle_read_result :
      Option (List ℕ) → ℕ → Session → Option SessionOutcome × Session
  unfolding forward_inbound_frames
  handle_read_result none now session = (some disconnected, session)
  handle_read_result (some []) now session = (some disconnected, session)
  handle_read_result (some (byte ∷ bytes)) now session = after_forward (
      forward_inbound_frames now
        (record session { framer = append_bytes (byte ∷ bytes) session.framer }))

  -- A frame for the stream, and whether `write_all` succeeded.
  unfoldable pub write_outbound_frame : List ℕ → Bool → Session → Option SessionOutcome × Session
  unfolding add_tx_frame
  write_outbound_frame frame false session = (some disconnected, session)
  write_outbound_frame frame true session =
      (none, record session { stats = add_tx_frame (length frame) session.stats })

  -- Behind one round of the loop: the outcome, if there is one, or the rest of the events.
  abbrev pub unless_ended :
      Option SessionOutcome × Session
      → (Session → Option SessionOutcome × Session)
      → Option SessionOutcome × Session
  unless_ended (some outcome, session) rest = (some outcome, session)
  unless_ended (none, session) rest = rest session

  -- The loop of `run_session` over what it takes: `none` while it has not returned.
  unfoldable pub run_session : List SessionEvent → Session → Option SessionOutcome × Session
  run_session [] session = (none, session)
  run_session (cancelled ∷ events) session = (some terminated, session)
  run_session (read res now ∷ events) session =
      unless_ended (handle_read_result res now session) (run_session events)
  run_session (frame_out frame written ∷ events) session =
      unless_ended (write_outbound_frame frame written session) (run_session events)
