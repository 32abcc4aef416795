-- ===== src/Resume.antt =====
-- crates/engine/src/resume: what is kept of a job for its next run, and when it is trusted.
pub mod Checkpoint
pub mod Admission
pub mod Durable
pub mod Coordinated
pub mod Examples
