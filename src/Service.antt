-- ===== src/Service.antt =====
-- src/service.rs: the handler error and its constructors.
pub mod Errors
pub mod Handlers
