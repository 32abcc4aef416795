-- ===== src/Http.antt =====
-- crates/engine/src/http: the validation of response metadata.
pub mod Validators
pub mod Range
pub mod Evidence
pub mod Accepted
pub mod Redirect
pub mod Examples
