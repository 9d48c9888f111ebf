-- ===== src/Package.antt =====
-- src/package_manifest.rs: the inventory of a package, and its verification.
pub mod Profile
pub mod Verify
