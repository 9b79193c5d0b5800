-- ===== src/Pipeline.antt =====
-- src/service/pipeline.rs: masking one text.
pub mod Masking
pub mod Restore
pub mod Records
pub mod Signal
pub mod Windows
pub mod Line
pub mod Guarantees
pub mod Returns
