-- ===== src/Runtime.antt =====
-- crates/eddyq-core/src/runtime.rs and retry.rs: the loops that fetch and run jobs.
pub mod Backoff
pub mod Idle
pub mod Outcome
pub mod Reports
pub mod Slots
pub mod Capacity
pub mod InFlight
pub mod Shutdown
pub mod Reclaim
pub mod Registry
pub mod Maintenance
pub mod Heartbeat
