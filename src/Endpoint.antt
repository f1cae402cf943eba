-- ===== src/Endpoint.antt =====
-- What an endpoint owns and shares (src/endpoint): filters, identity, counters, the transmit queue
-- and the sequence tracker.
pub mod Filters
pub mod Stats
pub mod TxQueue
pub mod SeqTracker
pub mod Session
pub mod Backoff
pub mod Reconnect
mod Tests
