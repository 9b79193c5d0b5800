-- ===== src/Tests.antt =====
-- The theorems applied to concrete inputs, and tests.
pub mod Samples
pub mod Sessions
pub mod Lines
pub mod Values
pub mod Calls
pub mod Configs
pub mod Requests
pub mod Proxied
pub mod Detected
