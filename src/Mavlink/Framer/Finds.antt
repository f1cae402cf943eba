-- ===== src/Mavlink/Framer/Finds.antt =====
-- A well-formed frame behind bytes without an STX is found at once.
use mavlink_router_rs.Base.{
  ℕ, ◌+◌, ◌≤◌, ◌≡◌, refl, sym, ap, ◌∙◌, Option, none, some, List, [], ◌++◌, arith, le→ltb, length,
  drop, length-append, take-append_self, drop-append_self, u64_max, saturating_add,
}
use mavlink_router_rs.Mavlink.Frame.{Stx, MsgEntry, ParsedHeader, header_len}
use mavlink_router_rs.Mavlink.Framer.Align.{
  stx_of, garbage, skip, stx_of-append, garbage-zero, garbage-append, garbage_all, find_stx-garbage,
  positioned,
}
use mavlink_router_rs.Mavlink.Framer.Defs.{
  Framer, at_stx, framed, try_validate_and_emit, emit, emitted, find_stx, try_next_frame,
}
use mavlink_router_rs.Mavlink.Framer.Progress.{
  IsFrame, iterate-at_stx, scan-emit, decide_frame_len-ge,
}
use mavlink_router_rs.Mavlink.Framer.Steps.{decide_frame_len-append}

stx_of_unfound : (b : List ℕ) → find_stx b ≡ none → stx_of (drop (garbage b) b) ≡ none
stx_of_unfound b h = go (stx_of (drop (garbage b) b)) refl
  where
    go : (o : Option Stx) → stx_of (drop (garbage b) b) ≡ o → o ≡ none
    go none e = refl
    go (some stx) e = absurd (cc (sym h, find_stx-garbage b, ap (positioned (garbage b)) e))

module _ (sorted : List (ℕ × MsgEntry)) (header : ParsedHeader) (frame : List ℕ)
    (ok : IsFrame sorted header frame) where
  at_stx-emit :
      (g : Framer) (rest : List ℕ)
      → g.buf ≡ frame ++ rest
      → at_stx sorted (some ok.stx, g) ≡ emit header frame (record g { buf = rest })
  unfolding at_stx framed try_validate_and_emit
  at_stx-emit g rest e =
      let long : header_len ok.stx + 2 ≤ length frame = decide_frame_len-ge frame ok.stx ok.sized in
      let total : length (frame ++ rest) ≡ length frame + length rest = length-append frame rest in
      rw e (
        rw (le→ltb (length (frame ++ rest)) (header_len ok.stx) (omega arith)) (
          rw (decide_frame_len-append frame rest ok.stx (omega arith) ∙ ok.sized) (
            rw (le→ltb (length (frame ++ rest)) (length frame) (omega arith)) (
              rw (take-append_self frame rest) (
                rw (drop-append_self frame rest) (
                  rw ok.checked
                    (ap (λ t. emit t frame (record g { buf = rest })) (sym ok.parsed))))))))

  -- A well-formed frame in the buffer, behind bytes none of which is an STX byte, is what the framer
  -- returns, with its header; it leaves what stands behind the frame, and counts the bytes before it.
  pub try_next_frame-finds :
      (f : Framer) (before rest : List ℕ)
      → f.resync_bytes ≤ u64_max
      → find_stx before ≡ none
      → f.buf ≡ before ++ (frame ++ rest)
      → try_next_frame sorted f ≡ (
        emitted header frame,
        record {
          buf = rest;
          resync_bytes = saturating_add f.resync_bytes (length before);
          crc_errors = f.crc_errors;
        },
      )
  unfolding try_next_frame
  try_next_frame-finds f before rest h clean e =
      scan-emit sorted (length f.buf) f
        (iterate-at_stx sorted f h ∙ rw skipped (rw begins (at_stx-emit g rest refl)))
    where
      g : Framer
      g = record {
        buf = frame ++ rest;
        resync_bytes = saturating_add f.resync_bytes (length before);
        crc_errors = f.crc_errors;
      }

      begins : stx_of (frame ++ rest) ≡ some ok.stx
      begins = stx_of-append frame rest ok.starts

      none_before : (drop (garbage before) before ≡ []) × (garbage before ≡ length before)
      none_before = garbage_all before (stx_of_unfound before clean)

      counted : garbage (before ++ (frame ++ rest)) ≡ length before
      counted =
          let rest_starts : garbage (drop (garbage before) before ++ (frame ++ rest)) ≡ 0 =
            rw (none_before.0) (garbage-zero (frame ++ rest) begins) in
          omega (arith, (garbage-append before (frame ++ rest)).0, rest_starts, none_before.1)

      kept : drop (garbage (before ++ (frame ++ rest))) (before ++ (frame ++ rest)) ≡ frame ++ rest
      kept = rw counted (drop-append_self before (frame ++ rest))

      skipped : skip f ≡ g
      skipped = unfold skip in rw e (rw (kept, counted))
