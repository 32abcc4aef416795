-- ===== src/Control.antt =====
-- crates/engine/src/control and error.rs: the classification of failures.
pub mod Error
pub mod Retry
pub mod Decision
pub mod Origin
pub mod Adaptive
pub mod Examples
