-- ===== src/Mavlink/Framer/Progress.antt =====
-- What one round of `try_next_frame` consumes, and that the rounds end.
use mavlink_router_rs.Base.{
  ℕ, zero, suc, ◌+◌, ◌≤◌, ◌<◌, ◌≡◌, refl, sym, subst, ◌∙◌, true, Option, none, some, List, [], ◌∷◌,
  ◌++◌, arith, inl, inr, ltb, ltb→le, length, take, drop, length-drop, length-take,
  take-append-drop, u64_max, saturating_add, saturating_add-le, Bool-cases,
}
use mavlink_router_rs.Mavlink.Frame.{Stx, MsgEntry, ParsedHeader, header_len, lookup}
use mavlink_router_rs.Mavlink.Framer.Align.{stx_of, garbage, skip, align_to_stx-skip}
use mavlink_router_rs.Mavlink.Framer.Defs.{
  Framer, FrameLen, ready, unknown_incompat_flag, discard_byte, decide_frame_len, parse_header,
  try_validate_and_emit, framed, at_stx, Iteration, emit, wait, again, iterate, crc_ok, full_header,
  emitted, pending, scan,
}
use mavlink_router_rs.Mavlink.Framer.Steps.{decide_frame_len-append}

-- What the framer promises of a frame that it emits: it starts with an STX byte, it is as long as
-- its own header says, its checksum matches if the msgid is known, and the header beside it is
-- the one that its bytes spell.
pub record IsFrame (sorted : List (ℕ × MsgEntry)) (header : ParsedHeader) (frame : List ℕ)
    : Type 0 where
  pub stx : Stx
  pub starts : stx_of frame ≡ some stx
  pub sized : decide_frame_len frame stx ≡ ready (length frame)
  pub checked :
      crc_ok frame (parse_header frame stx) (lookup sorted (parse_header frame stx).msgid) ≡ true
  pub parsed :
      header
      ≡ full_header frame (parse_header frame stx) (lookup sorted (parse_header frame stx).msgid)

pub decide_frame_len-ge :
    (b : List ℕ) (stx : Stx) {n : ℕ} → decide_frame_len b stx ≡ ready n → header_len stx + 2 ≤ n
unfolding decide_frame_len
decide_frame_len-ge b Stx.v1 h = ground arith
decide_frame_len-ge b Stx.v2 h = ground arith

nonempty : (b : List ℕ) {stx : Stx} → stx_of b ≡ some stx → 0 < length b
unfolding stx_of
nonempty [] h = absurd (cc)
nonempty (byte ∷ bytes) h = omega arith

-- The bytes that a round takes off the aligned framer `f`.
abbrev pub Consumes : List (ℕ × MsgEntry) → Framer → Iteration → Type 0
Consumes sorted f (emit header frame g) =
    IsFrame sorted header frame
    × (f.buf ≡ frame ++ g.buf)
    × (g.resync_bytes ≡ f.resync_bytes)
    × (g.crc_errors ≡ f.crc_errors)
Consumes sorted f (wait g) = g ≡ f
Consumes sorted f (again g) =
    (0 < length f.buf) × (g.buf ≡ drop 1 f.buf) × (g.resync_bytes ≡ saturating_add f.resync_bytes 1)

module _ (sorted : List (ℕ × MsgEntry)) (f : Framer) (stx : Stx) where
  emits_frame :
      (n : ℕ)
      → stx_of f.buf ≡ some stx
      → decide_frame_len f.buf stx ≡ ready n
      → n ≤ length f.buf
      → (stx_of (take n f.buf) ≡ some stx)
        × (decide_frame_len (take n f.buf) stx ≡ ready (length (take n f.buf)))
  emits_frame n starts sized fits =
      let frame = take n f.buf in
      let long : length frame ≡ n = omega (arith, length-take n f.buf) in
      let whole : frame ++ drop n f.buf ≡ f.buf = take-append-drop n f.buf in
      let header : header_len stx + 2 ≤ n = decide_frame_len-ge f.buf stx sized in
      (
        first n f.buf starts (omega arith),
        rw long (
            sym (decide_frame_len-append frame (drop n f.buf) stx (omega arith))
            ∙ (rw whole sized)),
      )
    where
      first : (n : ℕ) (b : List ℕ) → stx_of b ≡ some stx → 0 < n → stx_of (take n b) ≡ some stx
      first zero b h p = absurd (omega arith)
      first (suc n) [] h p = h
      first (suc n) (byte ∷ bytes) h p = unfold stx_of in h

  try_validate_and_emit-Consumes :
      (n : ℕ)
      → stx_of f.buf ≡ some stx
      → decide_frame_len f.buf stx ≡ ready n
      → n ≤ length f.buf
      → Consumes sorted f (try_validate_and_emit sorted f stx n)
  unfolding try_validate_and_emit discard_byte
  try_validate_and_emit-Consumes n starts sized fits =
      let frame = take n f.buf in
      let header = parse_header frame stx in
      let (begins, whole) = emits_frame n starts sized fits in
      elim (Bool-cases (crc_ok frame header (lookup sorted header.msgid))) [
        | inl good ↦ rw good (
          record { stx = stx; starts = begins; sized = whole; checked = good; parsed = refl },
          sym (take-append-drop n f.buf),
          refl,
          refl,
        )
        | inr bad ↦ rw bad (nonempty f.buf starts, refl, refl)
      ]

  framed-Consumes :
      (l : FrameLen)
      → stx_of f.buf ≡ some stx
      → decide_frame_len f.buf stx ≡ l
      → Consumes sorted f (framed sorted f stx l)
  unfolding framed discard_byte
  framed-Consumes unknown_incompat_flag starts sized = (nonempty f.buf starts, refl, refl)
  framed-Consumes (ready n) starts sized = elim (Bool-cases (ltb (length f.buf) n)) [
    | inl short ↦ rw short refl
    | inr enough ↦ rw enough (try_validate_and_emit-Consumes n starts sized (ltb→le _ _ enough))
  ]

module _ (sorted : List (ℕ × MsgEntry)) where
  at_stx-Consumes :
      (f : Framer) (o : Option Stx) → stx_of f.buf ≡ o → Consumes sorted f (at_stx sorted (o, f))
  unfolding at_stx
  at_stx-Consumes f none h = refl
  at_stx-Consumes f (some stx) h = elim (Bool-cases (ltb (length f.buf) (header_len stx))) [
    | inl short ↦ rw short refl
    | inr enough ↦ rw enough (framed-Consumes sorted f stx (decide_frame_len f.buf stx) h refl)
  ]

  pub iterate-at_stx :
      (f : Framer)
      → f.resync_bytes ≤ u64_max
      → iterate sorted f ≡ at_stx sorted (stx_of (skip f).buf, skip f)
  unfolding iterate
  iterate-at_stx f h = rw (align_to_stx-skip f h)

  pub iterate-Consumes :
      (f : Framer) → f.resync_bytes ≤ u64_max → Consumes sorted (skip f) (iterate sorted f)
  iterate-Consumes f h =
      rw (iterate-at_stx f h) (at_stx-Consumes (skip f) (stx_of (skip f).buf) refl)

  pub length-skip-le : (f : Framer) → length (skip f).buf ≤ length f.buf
  unfolding skip
  length-skip-le f = omega (arith, length-drop (garbage f.buf) f.buf)

  pub skip-le : (f : Framer) → (skip f).resync_bytes ≤ u64_max
  unfolding skip
  skip-le f = saturating_add-le f.resync_bytes (garbage f.buf)

  -- A further round has fewer bytes before it, and the counter stays in range.
  pub iterate_falls :
      (f : Framer) {g : Framer}
      → f.resync_bytes ≤ u64_max
      → iterate sorted f ≡ again g
      → (length g.buf < length f.buf) × (g.resync_bytes ≤ u64_max)
  iterate_falls f {g} h e =
      let (pos, left, counted) = subst (Consumes sorted (skip f)) e (iterate-Consumes f h) in
      (
        rw left (omega (arith, length-drop 1 (skip f).buf, length-skip-le f)),
        rw counted (saturating_add-le (skip f).resync_bytes 1),
      )

  pub iterate_waits :
      (f : Framer) {g : Framer} → f.resync_bytes ≤ u64_max → iterate sorted f ≡ wait g → g ≡ skip f
  iterate_waits f h e = subst (Consumes sorted (skip f)) e (iterate-Consumes f h)

  -- More rounds than bytes: how many more makes no difference.
  pub scan_rounds :
      (n m : ℕ) (f : Framer)
      → f.resync_bytes ≤ u64_max
      → length f.buf < n
      → length f.buf < m
      → scan sorted n f ≡ scan sorted m f
  unfolding scan
  scan_rounds zero m f h p q = absurd (omega arith)
  scan_rounds (suc n) zero f h p q = absurd (omega arith)
  scan_rounds (suc n) (suc m) f h p q = go (iterate sorted f) refl (scan_rounds n m)
    where
      go :
          (it : Iteration)
          → iterate sorted f ≡ it
          → ((g : Framer)
              → g.resync_bytes ≤ u64_max
              → length g.buf < n
              → length g.buf < m
              → scan sorted n g ≡ scan sorted m g)
          → scan sorted (suc n) f ≡ scan sorted (suc m) f
      go (emit header frame g) e ih = rw (e, scan)
      go (wait g) e ih = rw (e, scan)
      go (again g) e ih =
          let (falls, counted) = iterate_falls f h e in
          rw (e, scan) (ih g counted (omega arith) (omega arith))

  -- What `scan` returns when a round does not lead to a further one, and when it does.
  pub scan-emit :
      (n : ℕ) (f : Framer) {header : ParsedHeader} {frame : List ℕ} {g : Framer}
      → iterate sorted f ≡ emit header frame g
      → scan sorted (suc n) f ≡ (emitted header frame, g)
  unfolding scan
  scan-emit n f e = rw (e, scan)

  pub scan-wait :
      (n : ℕ) (f : Framer) {g : Framer}
      → iterate sorted f ≡ wait g
      → scan sorted (suc n) f ≡ (pending, g)
  unfolding scan
  scan-wait n f e = rw (e, scan)

  pub scan-again :
      (n : ℕ) (f : Framer) {g : Framer}
      → iterate sorted f ≡ again g
      → scan sorted (suc n) f ≡ scan sorted n g
  unfolding scan
  scan-again n f e = rw (e, scan)
