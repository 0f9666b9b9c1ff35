-- ===== src/Designer.antt =====
-- services/integration/workflow_designer: the canvas, its operations, and the graph built from it.
mod Models
mod Canvas
mod Paste
mod Steps
mod Builder
pub mod History
pub mod Fresh
pub mod Clipboard
pub mod Pasted
pub mod Integrity
pub mod Sound
pub mod Careful
pub mod Built
mod Tests
unfoldable pub use Models.*
unfoldable pub use Canvas.*
unfoldable pub use Builder.*
unfoldable pub use Paste.*
pub use Steps.*
