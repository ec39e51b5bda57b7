-- ===== src/Store.antt =====
-- The database of packages/store: its tables, and the operations of `SQLiteStore`, a child module
-- for each group of them. A statement that a constraint of the schema refuses changes nothing.
mod Schema
pub mod Executions
pub mod Events
pub mod Inputs
pub mod Tasks
pub mod Threads
pub mod Messages
pub mod Queues
pub mod Projects
pub mod Inversion
pub mod Selection
pub mod Deletion
pub mod Logs
pub mod Soundness
pub mod Evolution
pub use Schema.*
pub mod Settings
pub mod Migrations
