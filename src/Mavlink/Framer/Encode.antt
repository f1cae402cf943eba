-- ===== src/Mavlink/Framer/Encode.antt =====
-- Frames written out, and read back by the framer: the layout is that of `build_v1` and `build_v2`
-- in the unit tests of src/mavlink/framer.rs, with the fields that these hold fixed as arguments.
use mavlink_router_rs.Base.{
  ℕ, zero, suc, ◌+◌, ◌*◌, ◌/◌, ◌%◌, ◌≤◌, ◌<◌, ◌≡◌, refl, sym, ap, ap₂, ◌∙◌, true, Option, none,
  some, List, [], ◌∷◌, ◌++◌, arith, length, get_elem?, take, take-append_self, get_or-append_lt,
  ltb, Bool-cases, inl, inr, ltb→lt, ltb→le, ==_iff,
}
use mavlink_router_rs.Mavlink.Crc
use mavlink_router_rs.Mavlink.Frame.{
  Version, NodeId, MsgEntry, ParsedHeader, payload_start, stx_v1, stx_v2, v2_iflag_signed,
}
use mavlink_router_rs.Mavlink.Framer.Defs.{
  full_header, crc_ok, validate_crc, read_at, extract_targets, byte_at,
}

-- The fields that a sender fills in.
pub record Message : Type 0 where
  pub seq : ℕ
  pub source : NodeId
  pub msgid : ℕ
  pub payload : List ℕ

unfoldable pub crc_of : List ℕ → ℕ → ℕ
crc_of bytes crc_extra = Crc.finalize (Crc.update (Crc.update_slice Crc.new bytes) crc_extra)

unfoldable pub trailer : ℕ → List ℕ
trailer crc = crc % 256 ∷ crc / 256 ∷ []

abbrev pub body_v1 : Message → List ℕ
body_v1 m = length m.payload ∷ m.seq ∷ m.source.sys ∷ m.source.comp ∷ m.msgid ∷ m.payload

abbrev pub body_v2 : ℕ → ℕ → Message → List ℕ
body_v2 iflags compat_flags m =
    length m.payload
    ∷ iflags
    ∷ compat_flags
    ∷ m.seq
    ∷ m.source.sys
    ∷ m.source.comp
    ∷ m.msgid % 256
    ∷ m.msgid / 256 % 256
    ∷ m.msgid / 65536 % 256
    ∷ m.payload

unfoldable pub build_v1 : ℕ → Message → List ℕ
unfolding crc_of trailer
build_v1 crc_extra m = (stx_v1 ∷ body_v1 m) ++ trailer (crc_of (body_v1 m) crc_extra)

-- The flags and the signature of a v2 frame: a signed frame carries 13 more bytes.
abbrev pub incompat_flags : Option (List ℕ) → ℕ
incompat_flags none = 0
incompat_flags (some signature) = v2_iflag_signed

abbrev pub signature_bytes : Option (List ℕ) → List ℕ
signature_bytes none = []
signature_bytes (some signature) = signature

unfoldable pub build_v2 : ℕ → ℕ → Option (List ℕ) → Message → List ℕ
unfolding crc_of trailer
build_v2 crc_extra compat_flags signature m =
    let body = body_v2 (incompat_flags signature) compat_flags m in
    (stx_v2 ∷ body) ++ (trailer (crc_of body crc_extra) ++ signature_bytes signature)

-- The target that a payload holds at an offset of the msgid table.
unfoldable pub target_of : List ℕ → Option ℕ → Option ℕ
target_of payload none = none
target_of payload (some off) = get_elem? payload off

-- The header that a receiver is to see.
unfoldable pub header_of : Version → Message → MsgEntry → ParsedHeader
unfolding target_of
header_of version m entry = record {
  version = version;
  source = m.source;
  msgid = m.msgid;
  seq = m.seq;
  payload_len = length m.payload;
  target_system = target_of m.payload entry.target_sys_offset;
  target_component = target_of m.payload entry.target_comp_offset;
}

-- Reads behind a front of known length.
get_or-append_self :
    (front : List ℕ) (a b : ℕ) (rest : List ℕ) (n : ℕ)
    → n ≡ length front
    → (byte_at n (front ++ a ∷ b ∷ rest) ≡ a) × (byte_at (n + 1) (front ++ a ∷ b ∷ rest) ≡ b)
get_or-append_self [] a b rest n e = rw e (refl, refl)
get_or-append_self (x ∷ xs) a b rest n e =
    let (p, q) = get_or-append_self xs a b rest (length xs) refl in
    let next : suc (length xs) + 1 ≡ suc (length xs + 1) = omega arith in rw e (p, rw next q)

get_or-append_right :
    (front rest : List ℕ) (off : ℕ)
    → byte_at (length front + off) (front ++ rest) ≡ byte_at off rest
get_or-append_right [] rest off = let zero_off : 0 + off ≡ off = omega arith in rw zero_off
get_or-append_right (x ∷ xs) rest off =
    let next : suc (length xs) + off ≡ suc (length xs + off) = omega arith in
    rw next (get_or-append_right xs rest off)

get_elem?_lt : (xs : List ℕ) (i : ℕ) → i < length xs → get_elem? xs i ≡ some (byte_at i xs)
get_elem?_lt [] i h = absurd (omega arith)
get_elem?_lt (x ∷ xs) zero h = refl
get_elem?_lt (x ∷ xs) (suc i) h = get_elem?_lt xs i (omega arith)

get_elem?_ge : (xs : List ℕ) (i : ℕ) → length xs ≤ i → get_elem? xs i ≡ none
get_elem?_ge [] i h = refl
get_elem?_ge (x ∷ xs) zero h = absurd (omega arith)
get_elem?_ge (x ∷ xs) (suc i) h = get_elem?_ge xs i (omega arith)

read_at_lem :
    (front payload rest : List ℕ) (header : ParsedHeader) (o : Option ℕ)
    → payload_start header ≡ length front
    → header.payload_len ≡ length payload
    → read_at (front ++ (payload ++ rest)) header o ≡ target_of payload o
unfolding read_at target_of
read_at_lem front payload rest header none p q = refl
read_at_lem front payload rest header (some off) p q =
    rw (p, q)
      (elim (Bool-cases (ltb off (length payload))) [
        | inl inside ↦
            let lt = ltb→lt off (length payload) inside in
            rw inside (
              ap some (
                get_or-append_right front (payload ++ rest) off
                ∙ get_or-append_lt payload rest off 0 lt)
              ∙ sym (get_elem?_lt payload off lt))
        | inr outside ↦
            rw outside (sym (get_elem?_ge payload off (ltb→le off (length payload) outside)))
      ])

-- A checksum written behind a front of the length that the header tells is the one computed.
pub validate_crc_lem :
    (byte : ℕ) (body rest : List ℕ) (header : ParsedHeader) (crc_extra : ℕ)
    → payload_start header + header.payload_len ≡ length (byte ∷ body)
    → validate_crc ((byte ∷ body) ++ (trailer (crc_of body crc_extra) ++ rest)) header crc_extra
      ≡ true
unfolding validate_crc trailer crc_of
validate_crc_lem byte body rest header crc_extra e =
    let crc = crc_of body crc_extra in
    let (low, high) =
      get_or-append_self (byte ∷ body) (crc % 256) (crc / 256) rest
        (payload_start header + header.payload_len) e in
    let halves : crc % 256 + 0x100 * (crc / 256) ≡ crc = omega arith in
    let front : take (payload_start header + header.payload_len)
          ((byte ∷ body) ++ (trailer crc ++ rest))
        ≡ byte ∷ body =
      rw e (take-append_self (byte ∷ body) (trailer crc ++ rest)) in
    rw front (rw low (rw high (rw halves ((==_iff crc crc).1 refl))))

pub checked_with :
    (frame : List ℕ) (header : ParsedHeader) (found : Option MsgEntry) (entry : MsgEntry)
    → found ≡ some entry
    → validate_crc frame header entry.crc_extra ≡ true
    → crc_ok frame header found ≡ true
checked_with frame header found entry e h = rw e h

pub parsed_with :
    (front payload rest : List ℕ) (header : ParsedHeader) (found : Option MsgEntry)
    (entry : MsgEntry)
    → found ≡ some entry
    → payload_start header ≡ length front
    → header.payload_len ≡ length payload
    → record header {
      target_system = target_of payload entry.target_sys_offset;
      target_component = target_of payload entry.target_comp_offset;
    }
      ≡ full_header (front ++ (payload ++ rest)) header found
unfolding extract_targets
parsed_with front payload rest header found entry e p q = rw e (
    ap₂ (λ s c. record header { target_system = s; target_component = c })
      (sym (read_at_lem front payload rest header entry.target_sys_offset p q))
      (sym (read_at_lem front payload rest header entry.target_comp_offset p q)))
