-- ===== src/Pg.antt =====
-- Package pg (pg/pg.go): one PostgreSQL server, reached through its connection properties.
mod Conn
mod Statements
mod Roles
mod Databases
mod Groups
mod Classes
pub mod Ensures
pub mod Dropping
pub mod Creating
pub mod Waiting
pub mod Ready
unfoldable pub use Conn.*
unfoldable pub use Statements.*
unfoldable pub use Roles.*
unfoldable pub use Databases.*
unfoldable pub use Groups.*
unfoldable pub use Classes.*
