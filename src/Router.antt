-- ===== src/Router.antt =====
-- The router task (src/router): learn tables, the dedup window, groups, the routing decision and
-- the registry of endpoints.
pub mod Learn
pub mod Dedup
pub mod Group
pub mod Decide
pub mod Registry
mod Tests
