-- ===== src/Domain.antt =====
-- src/domain: the types that every component shares.
pub mod PdType
pub mod Span
pub mod Document
pub mod Float32
pub mod Candidate
pub mod Entity
pub mod MaskState
pub mod Policy
pub mod Unicode
