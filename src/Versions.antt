-- ===== src/Versions.antt =====
-- services/integration/versioning: the workflow version registry and the compatibility checker.
mod Registry
mod Compatibility
pub mod Appended
pub mod Ascending
pub mod Registered
pub mod Compatible
mod Tests
unfoldable pub use Registry.*
unfoldable pub use Compatibility.*
