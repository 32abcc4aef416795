-- ===== src/Scheduler.antt =====
-- crates/engine/src/scheduler: the plan of segments, the sizing policy, leases and the core.
pub mod Plan
pub mod Lease
pub mod Policy
pub mod Core
pub mod Examples
