-- ===== src/Pipeline.antt =====
-- services/integration/dependency_graph.py: the department pipeline and the checks over it.
mod Defs
mod Kahn
pub mod Checks
mod Tests
unfoldable pub use Defs.*
unfoldable pub use Kahn.*
