-- ===== src/Agent.antt =====
-- The agent of packages/agent, a child module for each source file.
pub mod TurnManager
pub mod Heartbeat
pub mod Context
pub mod Hitl
pub mod Service
