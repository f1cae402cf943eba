-- ===== src/Mavlink/Framer/Tests.antt =====
-- Runs of the framer on frames like those of the unit tests of src/mavlink/framer.rs.
use mavlink_router_rs.Base.{ℕ, ◌≡◌, refl, List, [], ◌∷◌, ◌++◌, none, some, arith, saturating_add}
use mavlink_router_rs.Base.Table
use mavlink_router_rs.Mavlink.Crc
use mavlink_router_rs.Mavlink.Frame.{MsgEntry, Version, lookup, from_byte}
use mavlink_router_rs.Mavlink.Framer.Chunks.{resume, try_next_frame-extend}
use mavlink_router_rs.Mavlink.Framer.Defs.{Framer, try_next_frame, find_stx, emitted}
use mavlink_router_rs.Mavlink.Framer.Encode.{Message, build_v1, build_v2, header_of}
use mavlink_router_rs.Mavlink.Framer.Output.{Accounts, try_next_frame-Accounts}
use mavlink_router_rs.Mavlink.Framer.RoundTrip.{
  try_next_frame-build_v1, try_next_frame-build_v2, build_v1-IsFrame,
}
use mavlink_router_rs.Mavlink.Framer.Steps.{extend}
use mavlink_router_rs.Mavlink.Framer.Finds.{try_next_frame-finds}

-- The check value of CRC-16-MCRF4XX over "123456789".
crc_check_value :
    Crc.finalize
      (Crc.update_slice Crc.new (0x31 ∷ 0x32 ∷ 0x33 ∷ 0x34 ∷ 0x35 ∷ 0x36 ∷ 0x37 ∷ 0x38 ∷ 0x39 ∷ []))
    ≡ 0x6F91
unfolding Crc.finalize Crc.update_slice Crc.new
crc_check_value = refl

abbrev heartbeat : MsgEntry
heartbeat = record { crc_extra = 50; target_sys_offset = none; target_comp_offset = none }

abbrev dialect : List (ℕ × MsgEntry)
dialect = (0, heartbeat) ∷ []

abbrev beat : Message
beat = record {
  seq = 7;
  source = record { sys = 1; comp = 1 };
  msgid = 0;
  payload = 4 ∷ 5 ∷ 6 ∷ [];
}

abbrev signature : List ℕ
signature = 1 ∷ 2 ∷ 3 ∷ 4 ∷ 5 ∷ 6 ∷ 7 ∷ 8 ∷ 9 ∷ 10 ∷ 11 ∷ 12 ∷ 13 ∷ []

-- Two bytes of garbage, a v1 frame and the start of another.
abbrev noisy_v1 : Framer
noisy_v1 = record {
  buf = (0 ∷ 9 ∷ []) ++ (build_v1 50 beat ++ 0xFE ∷ []);
  resync_bytes = 3;
  crc_errors = 0;
}

abbrev noisy_v2 : Framer
noisy_v2 = record {
  buf = (0 ∷ 9 ∷ []) ++ (build_v2 50 0 (some signature) beat ++ 0xFE ∷ []);
  resync_bytes = 3;
  crc_errors = 0;
}

try_next_frame-build_v2_example : try_next_frame dialect noisy_v2 ≡ (
  emitted (header_of Version.v2 beat heartbeat) (build_v2 50 0 (some signature) beat),
  record { buf = 0xFE ∷ []; resync_bytes = saturating_add 3 2; crc_errors = 0 },
)
unfolding lookup find_stx from_byte Table.get
try_next_frame-build_v2_example =
    try_next_frame-build_v2 dialect beat heartbeat refl (omega arith) 0 (some signature) noisy_v2
      (0 ∷ 9 ∷ []) (0xFE ∷ []) refl (omega arith) refl refl

try_next_frame-build_v1_example : try_next_frame dialect noisy_v1 ≡ (
  emitted (header_of Version.v1 beat heartbeat) (build_v1 50 beat),
  record { buf = 0xFE ∷ []; resync_bytes = saturating_add 3 2; crc_errors = 0 },
)
unfolding lookup find_stx from_byte Table.get
try_next_frame-build_v1_example =
    try_next_frame-build_v1 dialect beat heartbeat refl noisy_v1 (0 ∷ 9 ∷ []) (0xFE ∷ [])
      (omega arith) refl refl

try_next_frame-finds_example : try_next_frame dialect noisy_v1 ≡ (
  emitted (header_of Version.v1 beat heartbeat) (build_v1 50 beat),
  record { buf = 0xFE ∷ []; resync_bytes = saturating_add 3 2; crc_errors = 0 },
)
unfolding lookup find_stx from_byte Table.get
try_next_frame-finds_example =
    try_next_frame-finds dialect (header_of Version.v1 beat heartbeat) (build_v1 50 beat)
      (build_v1-IsFrame dialect beat heartbeat refl) noisy_v1 (0 ∷ 9 ∷ []) (0xFE ∷ []) (omega arith)
      refl refl

abbrev half_frame : Framer
half_frame = record { buf = 0xFE ∷ 9 ∷ 0 ∷ []; resync_bytes = 0; crc_errors = 0 }

try_next_frame-extend_example :
    try_next_frame dialect (extend (1 ∷ 1 ∷ 0 ∷ []) half_frame)
    ≡ resume dialect (1 ∷ 1 ∷ 0 ∷ []) (try_next_frame dialect half_frame)
try_next_frame-extend_example =
    try_next_frame-extend dialect (1 ∷ 1 ∷ 0 ∷ []) half_frame (omega arith)

try_next_frame-Accounts_example : Accounts dialect noisy_v1 (try_next_frame dialect noisy_v1)
try_next_frame-Accounts_example = try_next_frame-Accounts dialect noisy_v1 (omega arith)
