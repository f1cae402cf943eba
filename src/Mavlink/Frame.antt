-- ===== src/Mavlink/Frame.antt =====
-- Wire-format types and constants: src/mavlink/frame.rs, and the row type and lookup of
-- src/mavlink/msgid_table.rs.
use mavlink_router_rs.Base.{
  ℕ, ◌≡◌, ◌↔◌, Bool, true, ◌&&◌, Option, none, some, List, arith, Eq, ◌==◌, if◌then◌else◌, nat_eq,
}
use mavlink_router_rs.Base.Table

pub data Version : Type 0 where
  v1 v2 : Version

abbrev pub stx_v1 : ℕ
stx_v1 = 0xFE

abbrev pub stx_v2 : ℕ
stx_v2 = 0xFD

abbrev pub v2_iflag_signed : ℕ
v2_iflag_signed = 0x01

abbrev pub v2_signature_len : ℕ
v2_signature_len = 13

abbrev pub v1_header_len : ℕ
v1_header_len = 6

abbrev pub v2_header_len : ℕ
v2_header_len = 10

abbrev pub crc_len : ℕ
crc_len = 2

-- The STX byte that the framer is aligned on.
pub data Stx : Type 0 where
  v1 v2 : Stx

unfoldable pub from_byte : ℕ → Option Stx
from_byte byte =
    if byte == stx_v1 then some Stx.v1 else if byte == stx_v2 then some Stx.v2 else none

abbrev pub header_len : Stx → ℕ
header_len Stx.v1 = v1_header_len
header_len Stx.v2 = v2_header_len

pub record NodeId : Type 0 where
  pub sys : ℕ
  pub comp : ℕ

unfoldable pub node_beq : NodeId → NodeId → Bool
node_beq a b = (a.sys == b.sys) && (a.comp == b.comp)

pub node_beq_iff : (a b : NodeId) → (node_beq a b ≡ true) ↔ (a ≡ b)
unfolding node_beq
node_beq_iff a b = ground arith

instance abbrev pub node_key : Eq NodeId
node_key = record { beq = node_beq; beq_iff = node_beq_iff }

-- The routing-relevant fields of a frame's header.
pub record ParsedHeader : Type 0 where
  pub version : Version
  pub source : NodeId
  pub msgid : ℕ
  pub seq : ℕ
  pub payload_len : ℕ
  pub target_system : Option ℕ
  pub target_component : Option ℕ

abbrev version_start : Version → ℕ
version_start Version.v1 = v1_header_len
version_start Version.v2 = v2_header_len

abbrev pub payload_start : ParsedHeader → ℕ
payload_start header = version_start header.version

-- One row of the msgid table, which the build generates from the dialect files.
pub record MsgEntry : Type 0 where
  pub crc_extra : ℕ
  pub target_sys_offset : Option ℕ
  pub target_comp_offset : Option ℕ

-- The table is sorted by msgid without repetition, so the binary search of the source finds the
-- one row of a msgid, as this search does.
unfoldable pub lookup : List (ℕ × MsgEntry) → ℕ → Option MsgEntry
lookup sorted msgid = Table.get msgid sorted
