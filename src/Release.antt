-- ===== src/Release.antt =====
-- A release manifest verified before anything of it is launched
-- (crates/metralectl-control/src/release.rs, with the documents of
-- crates/metralectl-control/src/platform).
pub mod Documents
pub mod Gate
pub mod Signing
pub mod Revocations
mod Tests
