-- ===== src/Instances.antt =====
-- Package instances: the databases that are made in advance and given to service instances.
pub mod Lookup
pub mod Scanning
pub mod Choice
pub mod Names
pub mod Assigning
pub mod Changes
pub mod Leaks
pub mod Provisioned
pub mod Provisioning
mod Model
mod Find
mod Assign
unfoldable pub use Model.*
unfoldable pub use Find.*
unfoldable pub use Assign.*
