-- ===== src/Replay.antt =====
-- services/integration/replay: the difference of two recorded states.
mod Diff
mod Trace
pub mod Same
pub mod Total
pub mod Identical
pub mod Steps
mod Tests
unfoldable pub use Diff.*
unfoldable pub use Trace.*
