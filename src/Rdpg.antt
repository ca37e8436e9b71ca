-- ===== src/Rdpg.antt =====
-- Package rdpg: the bootstrap of a node and of its cluster.
mod Cluster
mod Schedules
mod Schema
mod Bootstrap
pub mod Nodes
pub mod Electing
pub mod Hiding
pub mod Defaults
unfoldable pub use Cluster.*
unfoldable pub use Schedules.*
unfoldable pub use Schema.*
unfoldable pub use Bootstrap.*
