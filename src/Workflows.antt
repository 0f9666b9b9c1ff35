-- ===== src/Workflows.antt =====
-- services/integration/lifecycle.py: the start-up check of every workflow graph.
mod Analysis
pub mod Reversed
pub mod Passed
mod Tests
unfoldable pub use Analysis.*
