-- ===== src/Admin.antt =====
-- Package admin: the API by which the nodes of the clusters call each other.
mod Databases
mod Checks
pub mod Listing
pub mod Managing
unfoldable pub use Databases.*
unfoldable pub use Checks.*
