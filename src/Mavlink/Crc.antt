-- ===== src/Mavlink/Crc.antt =====
-- The frame checksum CRC-16-MCRF4XX: src/mavlink/crc.rs. A shift of a `u8` or `u16` drops the
-- bits beyond its width.
use mavlink_router_rs.Base.{ℕ, ◌*◌, ◌/◌, ◌%◌, ◌^◌, ◌≡◌, refl, List, [], ◌∷◌, ◌++◌, bit_and, bit_xor}

abbrev crc_init : ℕ
crc_init = 0xFFFF

-- The state of the accumulator is one `u16`.
pub record Crc16 : Type 0 where
  pub value : ℕ

unfoldable crc16_update : ℕ → ℕ → ℕ
crc16_update crc byte =
    let first = bit_xor byte (bit_and crc 0xFF) in
    let tmp = bit_xor first (first * 2 ^ 4 % 2 ^ 8) in
    bit_xor (bit_xor (bit_xor (crc / 2 ^ 8) (tmp * 2 ^ 8 % 2 ^ 16)) (tmp * 2 ^ 3 % 2 ^ 16))
      (tmp / 2 ^ 4)

unfoldable pub new : Crc16
new = record { value = crc_init }

unfoldable pub update : Crc16 → ℕ → Crc16
unfolding crc16_update
update crc byte = record { value = crc16_update crc.value byte }

unfoldable pub update_slice : Crc16 → List ℕ → Crc16
unfolding update
update_slice crc [] = crc
update_slice crc (byte ∷ bytes) = update_slice (update crc byte) bytes

unfoldable pub finalize : Crc16 → ℕ
finalize crc = crc.value

-- Feeding a frame in pieces is feeding it whole.
update_slice-append :
    (crc : Crc16) (xs ys : List ℕ)
    → update_slice crc (xs ++ ys) ≡ update_slice (update_slice crc xs) ys
unfolding update_slice
update_slice-append crc [] ys = refl
update_slice-append crc (x ∷ xs) ys = update_slice-append (update crc x) xs ys
