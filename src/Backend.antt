-- ===== src/Backend.antt =====
-- src/backend_select.rs: which device the model is loaded on.
pub mod Selection
pub mod Runtime
pub mod Discovery
pub mod Cache
pub mod Select
pub mod Modules
