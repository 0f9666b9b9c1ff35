-- ===== src/Plugins.antt =====
-- services/integration/plugin_sdk: plugins, their registry, and what a sandbox lets them do.
mod Models
mod Registry
mod Sandbox
mod Validator
pub mod LoadOrder
mod Cycles
mod Runtime
pub mod Keyed
pub mod Discovery
pub mod Lifecycle
pub mod DefaultDeny
pub mod Validated
pub mod Dispatched
pub mod Cyclic
pub mod AllValid
mod Tests
unfoldable pub use Models.*
unfoldable pub use Registry.*
unfoldable pub use Validator.*
unfoldable pub use LoadOrder.*
unfoldable pub use Cycles.*
unfoldable pub use Runtime.*
unfoldable pub use Sandbox.*
