-- ===== src/Mavlink.antt =====
-- The MAVLink wire format (src/mavlink): frames, the frame checksum and the framer.
pub mod Frame
pub mod Crc
pub mod Framer
