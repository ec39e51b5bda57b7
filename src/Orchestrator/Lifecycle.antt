-- ===== src/Orchestrator/Lifecycle.antt =====
-- The life of the executions under the orchestrator of packages/orchestrator: what holds along
-- every sequence of calls.
mod Advance
pub mod Steps
pub use Advance.*
