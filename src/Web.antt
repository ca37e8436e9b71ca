-- ===== src/Web.antt =====
-- What the service broker and the administration API share: authentication, and answers.
mod Base64
mod Auth
mod Answers
pub mod Decoding
pub mod Admitting
pub mod Answering
unfoldable pub use Base64.*
unfoldable pub use Auth.*
unfoldable pub use Answers.*
