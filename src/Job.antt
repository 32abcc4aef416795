-- ===== src/Job.antt =====
-- crates/engine/src/job: the life of one download job.
pub mod State
pub mod Edges
pub mod Request
pub mod Lifecycle
pub mod Stop
pub mod Examples
