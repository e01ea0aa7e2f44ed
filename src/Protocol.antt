-- ===== src/Protocol.antt =====
-- The messages that agents exchange (crates/metralectl-protocol): identifiers, errors, and the
-- control vocabulary.
mod Ids
mod Settings
mod Errors
mod Messages
pub mod Hex
pub mod Name
pub use Ids.*
pub use Settings.*
pub use Errors.*
pub use Messages.*
