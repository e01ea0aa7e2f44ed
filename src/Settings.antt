-- ===== src/Settings.antt =====
-- What a remote client may set on a launch, and the check that enforces it
-- (crates/metralectl-core/src/settings/mod.rs, caution.rs, and scalar.rs).
mod Spec
mod Values
mod Table
mod Memory
mod Denied
mod Check
pub use Spec.*
pub use Check.*
pub mod Gate
mod Accepted
pub mod Validated
mod Strings
pub mod Samples
mod Tests
