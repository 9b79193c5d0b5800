-- ===== src/Controller.antt =====
-- The HTTP handlers of src/controller/.
pub mod Errors
pub mod Dto
pub mod Middleware
pub mod Flow
pub mod Process
pub mod Items
pub mod Batch
pub mod Proxy
pub mod Admin
pub mod Router
