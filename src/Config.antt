-- ===== src/Config.antt =====
-- src/config/loader.rs: the effective policy of a request, out of the configuration.
pub mod Profile
pub mod Effective
pub mod Policy
pub mod Resolver
pub mod Validate
pub mod Keys
pub mod Types
pub mod Demasking
