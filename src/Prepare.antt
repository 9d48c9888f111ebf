-- ===== src/Prepare.antt =====
-- src/prepare.rs: how a model file comes into the cache directory, and what is cleaned up there.
pub mod Acquire
pub mod Partials
