-- ===== src/Lifecycle.antt =====
-- services/manager/graphs/lifecycle.py: the project lifecycle graph (W01), the master state machine.
mod State
mod Phases
mod Nodes
mod Graph
pub mod Gates
pub mod Approval
pub mod Failure
mod Tests
unfoldable pub use State.*
unfoldable pub use Phases.*
unfoldable pub use Nodes.*
unfoldable pub use Graph.*
