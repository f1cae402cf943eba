-- ===== src/Mavlink/Framer/Steps.antt =====
-- One round of `try_next_frame` when more bytes stand behind those it reads, and what it consumes.
use mavlink_router_rs.Base.{
  ℕ, ◌≤◌, ◌<◌, ◌≡◌, refl, false, some, List, ◌++◌, arith, ◌⊎◌, inl, inr, ltb, ltb→le, le→ltb,
  length, take, length-append, take-append_le, drop-append_le, get_or-append_lt, saturating_add,
  Bool-cases,
}
use mavlink_router_rs.Mavlink.Frame.{Stx, MsgEntry, header_len}
use mavlink_router_rs.Mavlink.Framer.Defs.{
  Framer, FrameLen, ready, unknown_incompat_flag, discard_byte, decide_frame_len, parse_header,
  try_validate_and_emit, framed, at_stx, Iteration, emit, wait, again,
}

-- The framer after more bytes were written behind its buffer.
unfoldable pub extend : List ℕ → Framer → Framer
extend x f = record f { buf = f.buf ++ x }

abbrev pub extended : List ℕ → Iteration → Iteration
extended x (emit header frame g) = emit header frame (extend x g)
extended x (wait g) = wait (extend x g)
extended x (again g) = again (extend x g)

pub decide_frame_len-append :
    (b x : List ℕ) (stx : Stx)
    → header_len stx ≤ length b
    → decide_frame_len (b ++ x) stx ≡ decide_frame_len b stx
unfolding decide_frame_len
decide_frame_len-append b x Stx.v1 h = rw (get_or-append_lt b x 1 0 (omega arith))
decide_frame_len-append b x Stx.v2 h =
    rw (get_or-append_lt b x 1 0 (omega arith)) (rw (get_or-append_lt b x 2 0 (omega arith)))

discard_byte-extend :
    (x : List ℕ) (f : Framer)
    → 0 < length f.buf
    → discard_byte (extend x f) ≡ extend x (discard_byte f)
unfolding discard_byte extend
discard_byte-extend x f h = rw (drop-append_le 1 f.buf x (omega arith))

module _ (sorted : List (ℕ × MsgEntry)) (x : List ℕ) (f : Framer) (stx : Stx) where
  try_validate_and_emit-extend :
      (n : ℕ)
      → 0 < length f.buf
      → n ≤ length f.buf
      → try_validate_and_emit sorted (extend x f) stx n
        ≡ extended x (try_validate_and_emit sorted f stx n)
  unfolding try_validate_and_emit extend
  try_validate_and_emit-extend n pos h =
      let counted : Framer = record f { crc_errors = saturating_add f.crc_errors 1 } in
      let frame = take n f.buf in
      let header = parse_header frame stx in
      rw (take-append_le n f.buf x h)
        (rw (drop-append_le n f.buf x h) (ground (arith, discard_byte-extend x counted pos)))

  framed-extend :
      (l : FrameLen)
      → 0 < length f.buf
      → (framed sorted f stx l ≡ wait f)
        ⊎ (framed sorted (extend x f) stx l ≡ extended x (framed sorted f stx l))
  unfolding framed
  framed-extend unknown_incompat_flag pos = inr (rw (discard_byte-extend x f pos))
  framed-extend (ready n) pos = elim (Bool-cases (ltb (length f.buf) n)) [
    | inl short ↦ inl (rw short refl)
    | inr enough ↦
        let more : ltb (length (extend x f).buf) n ≡ false =
          le→ltb _ _ (longer n (ltb→le _ _ enough)) in
        inr (rw enough (rw more (try_validate_and_emit-extend n pos (ltb→le _ _ enough))))
  ]
    where
      longer : (n : ℕ) → n ≤ length f.buf → n ≤ length (extend x f).buf
      longer n h = unfold extend in omega (arith, length-append f.buf x)

  -- A round that does not wait goes the same way with more bytes behind.
  pub at_stx-extend :
      (at_stx sorted (some stx, f) ≡ wait f)
      ⊎ (at_stx sorted (some stx, extend x f) ≡ extended x (at_stx sorted (some stx, f)))
  unfolding at_stx
  at_stx-extend = elim (Bool-cases (ltb (length f.buf) (header_len stx))) [
    | inl short ↦ inl (rw short refl)
    | inr enough ↦
        go (ltb→le _ _ enough) enough
          (framed-extend (decide_frame_len f.buf stx) (positive stx (ltb→le _ _ enough)))
  ]
    where
      positive : (s : Stx) → header_len s ≤ length f.buf → 0 < length f.buf
      positive Stx.v1 h = omega arith
      positive Stx.v2 h = omega arith

      go :
          header_len stx ≤ length f.buf
          → ltb (length f.buf) (header_len stx) ≡ false
          → ((framed sorted f stx (decide_frame_len f.buf stx) ≡ wait f)
              ⊎ (framed sorted (extend x f) stx (decide_frame_len f.buf stx)
                  ≡ extended x (framed sorted f stx (decide_frame_len f.buf stx))))
          → (at_stx sorted (some stx, f) ≡ wait f)
            ⊎ (at_stx sorted (some stx, extend x f) ≡ extended x (at_stx sorted (some stx, f)))
      go h e (inl w) = inl (rw e w)
      go h e (inr s) =
          let more : ltb (length (extend x f).buf) (header_len stx) ≡ false =
            le→ltb _ _ (unfold extend in omega (arith, length-append f.buf x)) in
          inr (rw e (rw more (unfold extend in rw (decide_frame_len-append f.buf x stx h) s)))
