-- ===== src/Router/Registry.antt =====
-- The registry of endpoints and the router task: src/router/mod.rs. The hash map of endpoints is an
-- association list whose order stands for the map's iteration order; counters and queues are
-- reached by handles into the shared store.
pub mod State
pub mod Events
pub mod Frames
pub mod Task
pub mod Dispatch
pub mod Counted
pub mod Members
pub mod Ingest
pub mod Echo
pub mod Lifecycle
mod Tests
