-- ===== src/World.antt =====
-- What the daemon reads and writes: the rdpg database, the PostgreSQL servers, Consul, HTTP.
mod Rows
mod State
mod Monad
mod Calls
mod Frames
pub mod Triple
pub mod Holding
pub mod Measure
pub mod Sure
pub mod Calm
pub mod Steady
pub use Frames.*
unfoldable pub use Rows.*
unfoldable pub use State.*
unfoldable pub use Monad.*
unfoldable pub use Calls.*
