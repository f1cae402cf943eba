-- ===== src/Mavlink/Framer/RoundTrip.antt =====
-- Round trips: what is built as a v1 or v2 frame is returned by the framer as it was built.
use mavlink_router_rs.Base.{
  ℕ, ◌+◌, ◌*◌, ◌/◌, ◌%◌, ◌^◌, ◌≤◌, ◌<◌, ◌≡◌, refl, sym, ap, ◌∙◌, Option, none, some, List, [], ◌∷◌,
  ◌++◌, arith, length, length-append, u64_max, saturating_add,
}
use mavlink_router_rs.Mavlink.Frame.{
  Version, Stx, MsgEntry, lookup, stx_v1, stx_v2, from_byte, v2_signature_len,
}
use mavlink_router_rs.Mavlink.Framer.Align.{stx_of}
use mavlink_router_rs.Mavlink.Framer.Defs.{
  Framer, ready, decide_frame_len, parse_header, find_stx, emitted, try_next_frame,
}
use mavlink_router_rs.Mavlink.Framer.Encode.{
  Message, crc_of, trailer, body_v1, body_v2, build_v1, build_v2, incompat_flags, signature_bytes,
  header_of, validate_crc_lem, checked_with, parsed_with,
}
use mavlink_router_rs.Mavlink.Framer.Finds.{try_next_frame-finds}
use mavlink_router_rs.Mavlink.Framer.Progress.{IsFrame}

module _ (sorted : List (ℕ × MsgEntry)) (m : Message) (entry : MsgEntry)
    (known : lookup sorted m.msgid ≡ some entry) where
  pub build_v1-IsFrame : IsFrame sorted (header_of Version.v1 m entry) (build_v1 entry.crc_extra m)
  unfolding build_v1 header_of parse_header
  build_v1-IsFrame =
      let crc = crc_of (body_v1 m) entry.crc_extra in
      let frame = build_v1 entry.crc_extra m in
      let header = parse_header frame Stx.v1 in
      let front : List ℕ =
        stx_v1 ∷ length m.payload ∷ m.seq ∷ m.source.sys ∷ m.source.comp ∷ m.msgid ∷ [] in
      record {
        stx = Stx.v1;
        starts = unfold stx_of from_byte in refl;
        sized =
            unfold decide_frame_len in
            ap ready (omega (arith, length-append m.payload (trailer crc)));
        checked =
            checked_with frame header (lookup sorted m.msgid) entry known
              (validate_crc_lem stx_v1 (body_v1 m) [] header entry.crc_extra (omega arith));
        parsed =
            parsed_with front m.payload (trailer crc) header (lookup sorted m.msgid) entry known
              refl refl;
      }

  -- Whatever stands before it without an STX byte and whatever stands behind it, a v1 message with a known msgid
  -- is returned as sent, with its header fields and the targets that its payload holds.
  pub try_next_frame-build_v1 :
      (f : Framer) (before rest : List ℕ)
      → f.resync_bytes ≤ u64_max
      → find_stx before ≡ none
      → f.buf ≡ before ++ (build_v1 entry.crc_extra m ++ rest)
      → try_next_frame sorted f ≡ (
        emitted (header_of Version.v1 m entry) (build_v1 entry.crc_extra m),
        record {
          buf = rest;
          resync_bytes = saturating_add f.resync_bytes (length before);
          crc_errors = f.crc_errors;
        },
      )
  try_next_frame-build_v1 =
      try_next_frame-finds sorted (header_of Version.v1 m entry) (build_v1 entry.crc_extra m)
        build_v1-IsFrame

-- A v2 msgid has three bytes.
msgid_bytes :
    (n : ℕ) → n < 2 ^ 24 → n % 256 + 0x100 * (n / 256 % 256) + 0x10000 * (n / 65536 % 256) ≡ n
msgid_bytes n h = omega arith

-- A signature, where there is one, has its thirteen bytes.
abbrev IsSignature : Option (List ℕ) → Type 0
IsSignature none = Unit {0}
IsSignature (some signature) = length signature ≡ v2_signature_len

module _ (sorted : List (ℕ × MsgEntry)) (m : Message) (entry : MsgEntry)
    (known : lookup sorted m.msgid ≡ some entry) (small : m.msgid < 2 ^ 24) (compat_flags : ℕ) where
  build_v2_sized :
      (signature : Option (List ℕ))
      → IsSignature signature
      → decide_frame_len (build_v2 entry.crc_extra compat_flags signature m) Stx.v2
        ≡ ready (length (build_v2 entry.crc_extra compat_flags signature m))
  unfolding build_v2 decide_frame_len
  build_v2_sized none h =
      let crc = crc_of (body_v2 0 compat_flags m) entry.crc_extra in
      ap ready (omega (arith, length-append m.payload (trailer crc ++ [])))
  build_v2_sized (some signature) h =
      let crc = crc_of (body_v2 1 compat_flags m) entry.crc_extra in
      ap ready (omega (arith, length-append m.payload (trailer crc ++ signature)))

  build_v2-IsFrame :
      (signature : Option (List ℕ))
      → IsSignature signature
      → IsFrame sorted
          (header_of Version.v2 m entry)
          (build_v2 entry.crc_extra compat_flags signature m)
  unfolding build_v2 header_of parse_header
  build_v2-IsFrame signature h =
      let body = body_v2 (incompat_flags signature) compat_flags m in
      let crc = crc_of body entry.crc_extra in
      let frame = build_v2 entry.crc_extra compat_flags signature m in
      let header = parse_header frame Stx.v2 in
      let front : List ℕ =
        stx_v2
        ∷ length m.payload
        ∷ incompat_flags signature
        ∷ compat_flags
        ∷ m.seq
        ∷ m.source.sys
        ∷ m.source.comp
        ∷ m.msgid % 256
        ∷ m.msgid / 256 % 256
        ∷ m.msgid / 65536 % 256
        ∷ [] in
      let found : lookup sorted header.msgid ≡ some entry = rw (msgid_bytes m.msgid small) known in
      record {
        stx = Stx.v2;
        starts = unfold stx_of from_byte in refl;
        sized = build_v2_sized signature h;
        checked = checked_with frame header (lookup sorted header.msgid) entry found (
            validate_crc_lem stx_v2 body (signature_bytes signature) header entry.crc_extra
              (omega arith));
        parsed =
            ap (λ n. record (header_of Version.v2 m entry) { msgid = n })
              (sym (msgid_bytes m.msgid small))
            ∙ parsed_with front m.payload (trailer crc ++ signature_bytes signature) header
                (lookup sorted header.msgid) entry found refl refl;
      }

  -- Whatever stands before it without an STX byte and whatever stands behind it, a v2 message with
  -- a known msgid of three bytes, signed by thirteen bytes or not, is returned as sent, its
  -- signature included, with its header fields and the targets that its payload holds.
  pub try_next_frame-build_v2 :
      (signature : Option (List ℕ)) (f : Framer) (before rest : List ℕ)
      → IsSignature signature
      → f.resync_bytes ≤ u64_max
      → find_stx before ≡ none
      → f.buf ≡ before ++ (build_v2 entry.crc_extra compat_flags signature m ++ rest)
      → try_next_frame sorted f ≡ (
        emitted (header_of Version.v2 m entry) (build_v2 entry.crc_extra compat_flags signature m),
        record {
          buf = rest;
          resync_bytes = saturating_add f.resync_bytes (length before);
          crc_errors = f.crc_errors;
        },
      )
  try_next_frame-build_v2 signature f before rest h =
      try_next_frame-finds sorted (header_of Version.v2 m entry)
        (build_v2 entry.crc_extra compat_flags signature m) (build_v2-IsFrame signature h) f before
        rest
