-- ===== src/Cfsb.antt =====
-- Package cfsb: the Cloud Foundry service broker.
mod Bindings
mod Offers
mod Handlers
pub mod Storing
pub mod Offering
pub mod Serving
pub mod Addressing
pub mod Attaching
pub mod Attached
unfoldable pub use Bindings.*
unfoldable pub use Offers.*
unfoldable pub use Handlers.*
