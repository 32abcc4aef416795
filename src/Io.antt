-- ===== src/Io.antt =====
-- crates/engine/src/io: the write pipeline.
pub mod Frontier
pub mod Ledger
pub mod Budget
pub mod Buffers
