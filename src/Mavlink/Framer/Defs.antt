-- ===== src/Mavlink/Framer/Defs.antt =====
-- The operations of src/mavlink/framer.rs.
use mavlink_router_rs.Base.{
  ℕ, zero, suc, ◌+◌, ◌*◌, Bool, true, not, Option, none, some, List, [], ◌∷◌, ◌==◌, ltb,
  if◌then◌else◌, length, get_or, take, drop, saturating_add, bit_and,
}
use mavlink_router_rs.Mavlink.Crc
use mavlink_router_rs.Mavlink.Frame.{
  Version, Stx, from_byte, header_len, ParsedHeader, payload_start, MsgEntry, lookup, v1_header_len,
  v2_header_len, crc_len, v2_iflag_signed, v2_signature_len,
}

pub record Framer : Type 0 where
  pub buf : List ℕ
  pub resync_bytes : ℕ
  pub crc_errors : ℕ

pub data FrameLen : Type 0 where
  ready : ℕ → FrameLen
  unknown_incompat_flag : FrameLen

abbrev pub byte_at : ℕ → List ℕ → ℕ
byte_at i bytes = get_or bytes i 0

unfoldable add_resync : ℕ → Framer → Framer
add_resync count f = record f { resync_bytes = saturating_add f.resync_bytes count }

-- Drop one byte from the front of the buffer and count it.
unfoldable pub discard_byte : Framer → Framer
unfolding add_resync
discard_byte f = let g = add_resync 1 f in record g { buf = drop 1 g.buf }

-- The position and kind of the first STX byte: `find_map` over `enumerate`.
unfoldable pub shift : Option (ℕ × Stx) → Option (ℕ × Stx)
shift none = none
shift (some (index, stx)) = some (suc index, stx)

unfoldable pub find_stx : List ℕ → Option (ℕ × Stx)
unfolding shift from_byte
find_stx [] = none
find_stx (byte ∷ bytes) = elim (from_byte byte) [
  | none ↦ shift (find_stx bytes)
  | some stx ↦ some (0, stx)
]

unfoldable pub skip_to : ℕ → Framer → Framer
unfolding add_resync
skip_to zero f = f
skip_to (suc pos) f = let g = add_resync (suc pos) f in record g { buf = drop (suc pos) g.buf }

unfoldable pub aligned : Framer → Option (ℕ × Stx) → Option Stx × Framer
unfolding add_resync skip_to
aligned f none = let g = add_resync (length f.buf) f in (none, record g { buf = [] })
aligned f (some (pos, stx)) = (some stx, skip_to pos f)

-- Advance over the garbage before the first STX byte, or clear the buffer.
unfoldable pub align_to_stx : Framer → Option Stx × Framer
unfolding aligned find_stx
align_to_stx f = aligned f (find_stx f.buf)

unfoldable pub decide_frame_len : List ℕ → Stx → FrameLen
decide_frame_len buf Stx.v1 = ready (v1_header_len + byte_at 1 buf + crc_len)
decide_frame_len buf Stx.v2 =
    if not (bit_and (byte_at 2 buf) 0xFE == 0)
    then unknown_incompat_flag
    else ready (
        v2_header_len
        + byte_at 1 buf
        + crc_len
        + (if not (bit_and (byte_at 2 buf) v2_iflag_signed == 0) then v2_signature_len else 0))

unfoldable pub parse_header : List ℕ → Stx → ParsedHeader
parse_header frame Stx.v1 = record {
  version = Version.v1;
  source = record { sys = byte_at 3 frame; comp = byte_at 4 frame };
  msgid = byte_at 5 frame;
  seq = byte_at 2 frame;
  payload_len = byte_at 1 frame;
  target_system = none;
  target_component = none;
}
parse_header frame Stx.v2 = record {
  version = Version.v2;
  source = record { sys = byte_at 5 frame; comp = byte_at 6 frame };
  msgid = byte_at 7 frame + 0x100 * byte_at 8 frame + 0x10000 * byte_at 9 frame;
  seq = byte_at 4 frame;
  payload_len = byte_at 1 frame;
  target_system = none;
  target_component = none;
}

-- `frame[1..payload_end]`.
abbrev crc_input : List ℕ → ParsedHeader → List ℕ
crc_input frame header = drop 1 (take (payload_start header + header.payload_len) frame)

unfoldable pub validate_crc : List ℕ → ParsedHeader → ℕ → Bool
validate_crc frame header crc_extra =
    let payload_end = payload_start header + header.payload_len in
    let crc = Crc.update (Crc.update_slice Crc.new (crc_input frame header)) crc_extra in
    Crc.finalize crc == byte_at payload_end frame + 0x100 * byte_at (payload_end + 1) frame

unfoldable pub read_at : List ℕ → ParsedHeader → Option ℕ → Option ℕ
read_at frame header none = none
read_at frame header (some off) =
    if ltb off header.payload_len then some (byte_at (payload_start header + off) frame) else none

unfoldable pub extract_targets : List ℕ → ParsedHeader → Option MsgEntry → Option ℕ × Option ℕ
unfolding read_at
extract_targets frame header none = (none, none)
extract_targets frame header (some entry) =
    (read_at frame header entry.target_sys_offset, read_at frame header entry.target_comp_offset)

abbrev pub crc_ok : List ℕ → ParsedHeader → Option MsgEntry → Bool
crc_ok frame header none = true
crc_ok frame header (some entry) = validate_crc frame header entry.crc_extra

-- The header with its targets, as it leaves the framer.
abbrev pub full_header : List ℕ → ParsedHeader → Option MsgEntry → ParsedHeader
full_header frame header entry =
    let (target_system, target_component) = extract_targets frame header entry in
    record header { target_system = target_system; target_component = target_component }

-- One round of the loop of `try_next_frame`: a frame, a return of `None`, or a further round.
pub data Iteration : Type 0 where
  emit : ParsedHeader → List ℕ → Framer → Iteration
  wait : Framer → Iteration
  again : Framer → Iteration

module _ (sorted : List (ℕ × MsgEntry)) where
  unfoldable pub try_validate_and_emit : Framer → Stx → ℕ → Iteration
  unfolding discard_byte
  try_validate_and_emit f stx frame_len =
      let frame = take frame_len f.buf in
      let header = parse_header frame stx in
      let entry = lookup sorted header.msgid in
      if crc_ok frame header entry
      then emit (full_header frame header entry) frame (record f { buf = drop frame_len f.buf })
      else again (discard_byte (record f { crc_errors = saturating_add f.crc_errors 1 }))

  unfoldable pub framed : Framer → Stx → FrameLen → Iteration
  unfolding try_validate_and_emit discard_byte
  framed f stx unknown_incompat_flag = again (discard_byte f)
  framed f stx (ready frame_len) =
      if ltb (length f.buf) frame_len then wait f else try_validate_and_emit f stx frame_len

  unfoldable pub at_stx : Option Stx × Framer → Iteration
  unfolding framed decide_frame_len
  at_stx (none, f) = wait f
  at_stx (some stx, f) =
      if ltb (length f.buf) (header_len stx)
      then wait f
      else framed f stx (decide_frame_len f.buf stx)

  unfoldable pub iterate : Framer → Iteration
  unfolding at_stx align_to_stx
  iterate f = at_stx (align_to_stx f)

-- `pending` is `None`; `exhausted` means that the rounds allowed ran out.
pub data Outcome : Type 0 where
  emitted : ParsedHeader → List ℕ → Outcome
  pending : Outcome
  exhausted : Outcome

module _ (sorted : List (ℕ × MsgEntry)) where
  unfoldable pub scan : ℕ → Framer → Outcome × Framer
  scan zero f = (exhausted, f)
  scan (suc rounds) f = elim (iterate sorted f) [
    | emit header frame g ↦ (emitted header frame, g)
    | wait g ↦ (pending, g)
    | again g ↦ scan rounds g
  ]

  -- Every further round has a byte less, so one round more than there are bytes is enough.
  unfoldable pub try_next_frame : Framer → Outcome × Framer
  unfolding scan
  try_next_frame f = scan (suc (length f.buf)) f
