-- ===== src/Guard.antt =====
-- src/service/guard_service.rs with the parts of src/infra/crypto.rs that it calls.
pub mod Run
pub mod Crypto
pub mod Types
pub mod Service
pub mod Sessions
pub mod Steps
pub mod Refines
