-- ===== src/Endpoint/Session/Laws.antt =====
-- The reader forwards what the framer yields and the in-filter passes, in order.
use mavlink_router_rs.Base.{
  ℕ, zero, suc, ◌≤◌, ◌<◌, ◌≡◌, refl, sym, ap, subst, ◌∙◌, Bool, true, List, [], ◌∷◌, ◌++◌, arith,
  if◌then◌else◌, length, length-append, append_assoc, append-nil, Bool-cases, inl, inr, u64_max,
  saturating_add-le,
}
use mavlink_router_rs.Endpoint.Filters.{Filters, passes_in_filter}
use mavlink_router_rs.Endpoint.Session.{
  Inbound, Session, proceed, count_frame, forward_frame, forward, forward_inbound_frames,
}
use mavlink_router_rs.Mavlink.Frame.{ParsedHeader, MsgEntry}
use mavlink_router_rs.Mavlink.Framer.{Framer, Outcome, emitted, pending, exhausted, try_next_frame}
use mavlink_router_rs.Mavlink.Framer.Output.{Accounts, try_next_frame-Accounts}
use mavlink_router_rs.Mavlink.Framer.Progress.{decide_frame_len-ge}

module _ (sorted : List (ℕ × MsgEntry)) where
  -- The frames that the framer yields until it waits for more bytes.
  unfoldable pub yields : ℕ → Framer → List (ParsedHeader × List ℕ)
  yields zero framer = []
  yields (suc rounds) framer =
      let (outcome, next) = try_next_frame sorted framer in
      elim outcome [
        | emitted header frame ↦ (header, frame) ∷ yields rounds next
        | pending ↦ []
        | exhausted ↦ []
      ]

  -- A frame takes bytes from the buffer, and the counter stays in its range.
  pub shrinks :
      (framer : Framer) {header : ParsedHeader} {frame : List ℕ} {next : Framer}
      → framer.resync_bytes ≤ u64_max
      → try_next_frame sorted framer ≡ (emitted header frame, next)
      → (length next.buf < length framer.buf) × (next.resync_bytes ≤ u64_max)
  shrinks framer {header = header} {frame = frame} {next = next} small e =
      let (ok, (dropped, (bytes, counted))) =
        subst (Accounts sorted framer) e (try_next_frame-Accounts sorted framer small) in
      (
        omega (
          arith,
          decide_frame_len-ge frame ok.stx ok.sized,
          ap length bytes,
          length-append dropped (frame ++ next.buf),
          length-append frame next.buf,
        ),
        rw counted (saturating_add-le framer.resync_bytes (length dropped)),
      )

  pub never_exhausted :
      (framer : Framer) {next : Framer}
      → framer.resync_bytes ≤ u64_max
      → try_next_frame sorted framer ≡ (exhausted, next)
      → ⊥
  never_exhausted framer small e =
      subst (Accounts sorted framer) e (try_next_frame-Accounts sorted framer small)

  module _ (is_open : List Inbound → Bool) (endpoint_id : ℕ) (filters : Filters) where
    abbrev inbound : ParsedHeader → List ℕ → Inbound
    inbound header frame = record { endpoint_id = endpoint_id; frame = frame; header = header }

    -- The frames that pass the in-filter, as the router gets them.
    unfoldable pub passing : List (ParsedHeader × List ℕ) → List Inbound
    passing [] = []
    passing ((header, frame) ∷ frames) =
        if passes_in_filter filters header.msgid header.source
        then inbound header frame ∷ passing frames
        else passing frames

    pub forward_frame-framer :
        (header : ParsedHeader) (frame : List ℕ) (now : ℕ) (session : Session)
        → (forward_frame sorted is_open endpoint_id filters header frame now session).1.framer
          ≡ session.framer
    unfolding forward_frame count_frame
    forward_frame-framer header frame now session = ground arith

    -- What one frame leaves in the frames sent, and whether the loop goes on, while the channel is open.
    pub forward_frame-sent :
        (header : ParsedHeader) (frame : List ℕ) (now : ℕ) (session : Session)
        → ((sent : List Inbound) → is_open sent ≡ true)
        → ((forward_frame sorted is_open endpoint_id filters header frame now session).0 ≡ true)
          × ((forward_frame sorted is_open endpoint_id filters header frame now session).1.sent
              ≡ session.sent ++ passing ((header, frame) ∷ []))
    unfolding forward_frame count_frame passing
    forward_frame-sent header frame now session always =
        let open_now = always session.sent in
        elim (Bool-cases (passes_in_filter filters header.msgid header.source)) [
          | inl passes ↦ rw passes (rw open_now (refl, refl))
          | inr blocked ↦ rw blocked (refl, sym (append-nil session.sent))
        ]

    pub passing-append :
        (first rest : List (ParsedHeader × List ℕ))
        → passing (first ++ rest) ≡ passing first ++ passing rest
    unfolding passing
    passing-append [] rest = refl
    passing-append ((header, frame) ∷ first) rest =
        elim (Bool-cases (passes_in_filter filters header.msgid header.source)) [
          | inl passes ↦ rw passes (ap (◌∷◌ (inbound header frame)) (passing-append first rest))
          | inr blocked ↦ rw blocked (passing-append first rest)
        ]

    module _ (now : ℕ) (always : (sent : List Inbound) → is_open sent ≡ true) where
      forward-sent :
          (rounds : ℕ) (session : Session)
          → session.framer.resync_bytes ≤ u64_max
          → length session.framer.buf < rounds
          → ((forward sorted is_open endpoint_id filters rounds now session).0 ≡ proceed)
            × ((forward sorted is_open endpoint_id filters rounds now session).1.sent
                ≡ session.sent ++ passing (yields rounds session.framer))
      unfolding forward yields passing
      forward-sent zero session small short = absurd (omega arith)
      forward-sent (suc rounds) session small short =
          go (try_next_frame sorted session.framer) refl (forward-sent rounds)
        where
          go :
              (r : Outcome × Framer)
              → try_next_frame sorted session.framer ≡ r
              → ((later : Session)
                  → later.framer.resync_bytes ≤ u64_max
                  → length later.framer.buf < rounds
                  → ((forward sorted is_open endpoint_id filters rounds now later).0 ≡ proceed)
                    × ((forward sorted is_open endpoint_id filters rounds now later).1.sent
                        ≡ later.sent ++ passing (yields rounds later.framer)))
              → ((forward sorted is_open endpoint_id filters (suc rounds) now session).0 ≡ proceed)
                × ((forward sorted is_open endpoint_id filters (suc rounds) now session).1.sent
                    ≡ session.sent ++ passing (yields (suc rounds) session.framer))
          go (exhausted, next) e ih = absurd (never_exhausted session.framer small e)
          go (pending, next) e ih = rw (e, forward, yields) (refl, sym (append-nil session.sent))
          go (emitted header frame, next) e ih =
              let left = (try_next_frame sorted session.framer).1 in
              let scanned = record session { framer = left } in
              let after =
                forward_frame sorted is_open endpoint_id filters header frame now scanned in
              let out : (try_next_frame sorted session.framer).0 ≡ emitted header frame =
                ap (λ (r : Outcome × Framer). r.0) e in
              let moved : left ≡ next = ap (λ (r : Outcome × Framer). r.1) e in
              let same : after.1.framer ≡ left = forward_frame-framer header frame now scanned in
              let (less, in_range) = shrinks session.framer small e in
              let (on, sent) = forward_frame-sent header frame now scanned always in
              let (ends, rest) =
                ih after.1 (rw (same, moved) in_range) (rw (same, moved) (omega arith)) in
              rw (out, forward, yields)
                (rw on (
                  ends,
                  rest
                      ∙ rw (sent, same)
                          (append_assoc session.sent (passing ((header, frame) ∷ []))
                              (passing (yields rounds left))
                            ∙ ap (λ t. session.sent ++ t)
                                (sym (passing-append ((header, frame) ∷ []) (yields rounds left)))),
                ))

      -- While the router's channel is open, a call ends and goes on, and has sent, behind what was
      -- sent before, exactly the frames that the framer yields from its buffer and that the
      -- in-filter passes, in their order and under the endpoint's own id.
      pub forward_inbound_frames-sent :
          (session : Session)
          → session.framer.resync_bytes ≤ u64_max
          → ((forward_inbound_frames sorted is_open endpoint_id filters now session).0 ≡ proceed)
            × ((forward_inbound_frames sorted is_open endpoint_id filters now session).1.sent
                ≡ session.sent ++ passing (yields (suc (length session.framer.buf)) session.framer))
      unfolding forward_inbound_frames
      forward_inbound_frames-sent session small =
          forward-sent (suc (length session.framer.buf)) session small (omega arith)
