-- ===== src/Metrics.antt =====
-- services/integration/diagnostics/graph_metrics.py: static analysis of a graph of named nodes.
mod Defs
pub mod Adjacency
pub mod Reach
pub mod Search
pub mod Counts
mod Tests
unfoldable pub use Defs.*
