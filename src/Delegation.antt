-- ===== src/Delegation.antt =====
-- services/manager/graphs/delegation.py: the task delegation graph (W12).
mod State
mod Nodes
mod Graph
pub mod Routing
pub mod Department
pub mod Retry
mod Tests
unfoldable pub use State.*
unfoldable pub use Nodes.*
unfoldable pub use Graph.*
