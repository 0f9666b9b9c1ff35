-- ===== src/Release.antt =====
-- services/integration/production: the versions of releases.
mod Semver
pub mod Bumped
mod Tests
unfoldable pub use Semver.*
