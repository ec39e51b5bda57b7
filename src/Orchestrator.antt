-- ===== src/Orchestrator.antt =====
-- The orchestrator of packages/orchestrator: its state, and a child module for each source file.
pub mod World
pub mod EventHandler
pub mod QueueManager
pub mod Retry
pub mod HealthMonitor
pub mod Scheduler
pub mod TaskManager
pub mod Service
pub mod Frames
pub mod Lifecycle
pub mod Outcomes
