-- ===== src/Services.antt =====
-- Package services: the configuration files of the other programs of a node.
mod Config
pub mod Lines
pub mod Writing
pub mod Bouncing
unfoldable pub use Config.*
