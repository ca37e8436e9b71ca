-- ===== src/World/Triple.antt =====
-- Total correctness of functions over the world.
mod Core
mod Steps
unfoldable pub use Core.*
unfoldable pub use Steps.*
