-- ===== src/Repository.antt =====
-- services/repository: the naming policy of branches, the managers over the database's rows and the
-- provider's calls, the approval gate of pull requests, and the workflow that runs them.
pub mod Names
pub mod Named
pub mod Slug
pub mod Store
pub mod Tables
pub mod Requests
pub mod Managers
pub mod Service
pub mod Frame
pub mod Respects
pub mod Guarded
pub mod Moves
pub mod Moving
pub mod Gate
pub mod Approved
pub mod Gates
pub mod Gated
pub mod State
pub mod Graph
pub mod Workflow
pub mod Counted
pub mod Bounded
pub mod Retried
pub mod Integration
mod Tests
