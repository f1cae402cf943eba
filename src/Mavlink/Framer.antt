-- ===== src/Mavlink/Framer.antt =====
-- The frame state machine: src/mavlink/framer.rs. The buffer of the source (`BytesMut`) is the
-- list of its bytes, and its growth and reservation are left out. A read `buf[i]` is `byte_at i`;
-- the code reads only where it has compared the length first. The msgid table, which the build
-- generates, is the parameter `sorted`.
pub mod Defs
pub mod Align
pub mod Steps
pub mod Progress
pub mod Chunks
pub mod Output
pub mod Finds
pub mod Encode
pub mod RoundTrip
mod Tests
pub use Defs.{Framer, Outcome, emitted, pending, exhausted}
unfoldable pub use Defs.{try_next_frame}
