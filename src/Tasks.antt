-- ===== src/Tasks.antt =====
-- Package tasks: the queue of tasks, its workers and its scheduler.
pub mod Queueing
pub mod Running
pub mod Faults
pub mod Marks
pub mod Twice
pub mod Marking
pub mod Scheduling
pub mod Prompt
pub mod Rounds
pub mod Reconciling
pub mod Backing
pub mod Covering
pub mod Recording
pub mod Locked
pub mod Below
pub mod Exclusive
pub mod Moving
pub mod Sharing
pub mod Alone
pub mod Leaked
mod Queue
mod Work
mod Scheduler
mod Databases
mod Maintenance
mod Backups
mod Reconcile
mod Crowd
unfoldable pub use Queue.*
unfoldable pub use Work.*
unfoldable pub use Scheduler.*
unfoldable pub use Databases.*
unfoldable pub use Maintenance.*
unfoldable pub use Backups.*
unfoldable pub use Reconcile.*
unfoldable pub use Crowd.*
