-- ===== src/Endpoint/Session/Refines.antt =====
-- A whole session refines the framing of one stream: how the reads cut the stream, and what is
-- written in between, does not matter to what the router gets.
use mavlink_router_rs.Base.{
  ℕ, zero, suc, ◌≤◌, ◌<◌, ◌≡◌, refl, sym, ap, ◌∙◌, Bool, true, false, Option, none, some, List, [],
  ◌∷◌, ◌++◌, arith, length, append_assoc, append-nil, u64_max,
}
use mavlink_router_rs.Endpoint.Filters.{Filters}
use mavlink_router_rs.Endpoint.Session.{
  Inbound, Session, SessionEvent, cancelled, read, frame_out, SessionOutcome, Flow, proceed,
  break_off, out_of_rounds, append_bytes, start, forward_frame, forward, forward_inbound_frames,
  after_forward, handle_read_result, write_outbound_frame, unless_ended, run_session,
}
use mavlink_router_rs.Endpoint.Session.Laws.{
  yields, shrinks, never_exhausted, passing, passing-append, forward_frame-framer,
  forward_frame-sent, forward_inbound_frames-sent,
}
use mavlink_router_rs.Endpoint.Session.Stream.{
  left_after, left_emitted, left_pending, left_in_range, extend_nil, yields-extend,
  yields-left_after, yields_nothing,
}
use mavlink_router_rs.Endpoint.Stats.{EndpointStats, add_tx_frame}
use mavlink_router_rs.Mavlink.Frame.{MsgEntry}
use mavlink_router_rs.Mavlink.Framer.{Framer, Outcome, emitted, pending, exhausted, try_next_frame}
use mavlink_router_rs.Mavlink.Framer.Steps.{extend}

-- Every read has bytes, every write succeeds, and the session is not cancelled.
abbrev pub Flows : List SessionEvent → Type 0
Flows [] = Unit
Flows (cancelled ∷ events) = ⊥
Flows (read none now ∷ events) = ⊥
Flows (read (some []) now ∷ events) = ⊥
Flows (read (some (byte ∷ bytes)) now ∷ events) = Flows events
Flows (frame_out frame false ∷ events) = ⊥
Flows (frame_out frame true ∷ events) = Flows events

-- The bytes of all reads, one behind the other.
abbrev pub stream : List SessionEvent → List ℕ
stream [] = []
stream (read (some bytes) now ∷ events) = bytes ++ stream events
stream (_ ∷ events) = stream events

module _ (sorted : List (ℕ × MsgEntry)) (is_open : List Inbound → Bool) (endpoint_id : ℕ)
    (filters : Filters) (always : (sent : List Inbound) → is_open sent ≡ true) where
  forward-framer :
      (rounds now : ℕ) (session : Session)
      → session.framer.resync_bytes ≤ u64_max
      → length session.framer.buf < rounds
      → (forward sorted is_open endpoint_id filters rounds now session).1.framer
        ≡ left_after sorted rounds session.framer
  unfolding forward
  forward-framer zero now session small short = absurd (omega arith)
  forward-framer (suc rounds) now session small short =
      go (try_next_frame sorted session.framer) refl (forward-framer rounds now)
    where
      go :
          (r : Outcome × Framer)
          → try_next_frame sorted session.framer ≡ r
          → ((later : Session)
              → later.framer.resync_bytes ≤ u64_max
              → length later.framer.buf < rounds
              → (forward sorted is_open endpoint_id filters rounds now later).1.framer
                ≡ left_after sorted rounds later.framer)
          → (forward sorted is_open endpoint_id filters (suc rounds) now session).1.framer
            ≡ left_after sorted (suc rounds) session.framer
      go (exhausted, next) e ih = absurd (never_exhausted sorted session.framer small e)
      go (pending, next) e ih =
          let moved : (try_next_frame sorted session.framer).1 ≡ next =
            ap (λ (r : Outcome × Framer). r.1) e in
          let out : (try_next_frame sorted session.framer).0 ≡ pending =
            ap (λ (r : Outcome × Framer). r.0) e in
          rw (out, forward) (moved ∙ sym (left_pending sorted rounds session.framer e))
      go (emitted header frame, next) e ih =
          let left = (try_next_frame sorted session.framer).1 in
          let scanned = record session { framer = left } in
          let after = forward_frame sorted is_open endpoint_id filters header frame now scanned in
          let out : (try_next_frame sorted session.framer).0 ≡ emitted header frame =
            ap (λ (r : Outcome × Framer). r.0) e in
          let moved : left ≡ next = ap (λ (r : Outcome × Framer). r.1) e in
          let same : after.1.framer ≡ left =
            forward_frame-framer sorted is_open endpoint_id filters header frame now scanned in
          let (less, in_range) = shrinks sorted session.framer small e in
          let (on, sent) =
            forward_frame-sent sorted is_open endpoint_id filters header frame now scanned always in
          let rest = ih after.1 (rw (same, moved) in_range) (rw (same, moved) (omega arith)) in
          rw (out, forward)
            (rw on (
              rest
              ∙ ap (left_after sorted rounds) (same ∙ moved)
              ∙ sym (left_emitted sorted rounds session.framer e)))

  -- What a read leaves.
  record Read (f : Framer) (bytes : List ℕ) (session : Session)
      (r : Option SessionOutcome × Session) : Type 0 where
    goes_on : r.0 ≡ none
    sends :
        r.1.sent
        ≡ session.sent
          ++ passing sorted is_open endpoint_id filters
              (yields sorted (suc (length (extend bytes f).buf)) (extend bytes f))
    leaves : r.1.framer ≡ left_after sorted (suc (length (extend bytes f).buf)) (extend bytes f)

  handle_read_result-Read :
      (byte : ℕ) (bytes : List ℕ) (now : ℕ) (session : Session)
      → session.framer.resync_bytes ≤ u64_max
      → Read session.framer
          (byte ∷ bytes)
          session
          (handle_read_result sorted is_open endpoint_id filters (some (byte ∷ bytes)) now session)
  unfolding handle_read_result forward_inbound_frames extend
  handle_read_result-Read byte bytes now session small =
      let ready = record session { framer = append_bytes (byte ∷ bytes) session.framer } in
      let rounds = suc (length ready.framer.buf) in
      let (on, sent) =
        forward_inbound_frames-sent sorted is_open endpoint_id filters now always ready small in
      let framer = forward-framer rounds now ready small (omega arith) in
      go (forward sorted is_open endpoint_id filters rounds now ready) on sent framer
    where
      longer : Framer
      longer = extend (byte ∷ bytes) session.framer

      go :
          (r : Flow × Session)
          → r.0 ≡ proceed
          → r.1.sent
            ≡ session.sent
              ++ passing sorted is_open endpoint_id filters
                  (yields sorted (suc (length longer.buf)) longer)
          → r.1.framer ≡ left_after sorted (suc (length longer.buf)) longer
          → Read session.framer
              (byte ∷ bytes)
              session
              (after_forward sorted is_open endpoint_id filters r)
      go (proceed, later) on sent framer = record { goes_on = refl; sends = sent; leaves = framer }
      go (break_off, later) on sent framer = absurd (cc)
      go (out_of_rounds, later) on sent framer = absurd (cc)

  -- The frames of a framer's buffer that reach the router.
  abbrev routed : Framer → List Inbound
  routed f = passing sorted is_open endpoint_id filters (yields sorted (suc (length f.buf)) f)

  -- Frames of a read, and of the bytes behind it.
  routed-extend :
      (x y : List ℕ) (f : Framer)
      → f.resync_bytes ≤ u64_max
      → routed (extend (x ++ y) f)
        ≡ routed (extend x f)
          ++ routed (extend y (left_after sorted (suc (length (extend x f).buf)) (extend x f)))
  routed-extend x y f small =
      let first = extend x f in
      let rounds = suc (length first.buf) in
      let in_range : first.resync_bytes ≤ u64_max = unfold extend in small in
      let whole : extend (x ++ y) f ≡ extend y first =
        unfold extend in rw (append_assoc f.buf x y) refl in
      let cut =
        yields-extend sorted y rounds (suc (length (extend y first).buf))
          (suc (length (extend y (left_after sorted rounds first)).buf)) first in_range
          (omega arith) (omega arith) (omega arith) in
      rw (whole, cut)
        (passing-append sorted is_open endpoint_id filters (yields sorted rounds first) _)

  run_session-routed :
      (events : List SessionEvent) (session : Session)
      → session.framer.resync_bytes ≤ u64_max
      → ((k : ℕ) → yields sorted (suc k) session.framer ≡ [])
      → Flows events
      → ((run_session sorted is_open endpoint_id filters events session).0 ≡ none)
        × ((run_session sorted is_open endpoint_id filters events session).1.sent
            ≡ session.sent ++ routed (extend (stream events) session.framer))
  unfolding run_session write_outbound_frame
  run_session-routed [] session small rest flows =
      let bare = extend_nil session.framer in
      let nothing = rest (length session.framer.buf) in
      (refl, rw (bare, nothing) (unfold passing in sym (append-nil session.sent)))
  run_session-routed (cancelled ∷ events) session small rest flows = absurd flows
  run_session-routed (read none now ∷ events) session small rest flows = absurd flows
  run_session-routed (read (some []) now ∷ events) session small rest flows = absurd flows
  run_session-routed (read (some (byte ∷ bytes)) now ∷ events) session small rest flows =
      let result =
        handle_read_result sorted is_open endpoint_id filters (some (byte ∷ bytes)) now session in
      go result (handle_read_result-Read byte bytes now session small)
        (λ later in_range waits. run_session-routed events later in_range waits flows)
    where
      first : Framer
      first = extend (byte ∷ bytes) session.framer

      go :
          (r : Option SessionOutcome × Session)
          → Read session.framer (byte ∷ bytes) session r
          → ((later : Session)
              → later.framer.resync_bytes ≤ u64_max
              → ((k : ℕ) → yields sorted (suc k) later.framer ≡ [])
              → ((run_session sorted is_open endpoint_id filters events later).0 ≡ none)
                × ((run_session sorted is_open endpoint_id filters events later).1.sent
                    ≡ later.sent ++ routed (extend (stream events) later.framer)))
          → let after =
              unless_ended sorted is_open endpoint_id filters r
                (run_session sorted is_open endpoint_id filters events) in
            (after.0 ≡ none)
            × (after.1.sent
                ≡ session.sent ++ routed (extend ((byte ∷ bytes) ++ stream events) session.framer))
      go (some outcome, later) had ih = absurd (cc (had.goes_on))
      go (none, later) had ih =
          let in_range : first.resync_bytes ≤ u64_max = unfold extend in small in
          let left = had.leaves in
          let (on, sent) =
            ih later (rw left (left_in_range sorted (suc (length first.buf)) first in_range)) (λ k.
              rw left (
                yields-left_after sorted (suc (length first.buf)) k first in_range
                  (omega arith))) in
          let whole = routed-extend (byte ∷ bytes) (stream events) session.framer small in
          (
            on,
            sent
                ∙ ap (λ t. t ++ routed (extend (stream events) later.framer)) had.sends
                ∙ append_assoc session.sent (routed first) _
                ∙ ap (λ f. session.sent ++ (routed first ++ routed (extend (stream events) f))) left
                ∙ ap (λ t. session.sent ++ t) (sym whole),
          )
  run_session-routed (frame_out frame false ∷ events) session small rest flows = absurd flows
  run_session-routed (frame_out frame true ∷ events) session small rest flows =
      run_session-routed events
        (record session { stats = add_tx_frame (length frame) session.stats }) small rest flows

  -- While the router's channel is open, every read has bytes and every write succeeds, a session
  -- goes on, and has sent exactly the frames that the framer yields from the bytes of all reads in
  -- one piece and that the in-filter passes, in their order and under the endpoint's own id: how
  -- the reads cut the stream, and what is written in between, does not matter.
  pub run_session-sent :
      (events : List SessionEvent) (stats : EndpointStats)
      → Flows events
      → ((run_session sorted is_open endpoint_id filters events (start stats)).0 ≡ none)
        × ((run_session sorted is_open endpoint_id filters events (start stats)).1.sent
            ≡ passing sorted is_open endpoint_id filters (
                yields sorted
                  (suc (length (stream events)))
                  (record { buf = stream events; resync_bytes = 0; crc_errors = 0 })))
  unfolding start extend
  run_session-sent events stats flows =
      run_session-routed events (start stats) (omega arith)
        (λ k. yields_nothing sorted k (start stats).framer (omega arith) refl) flows
