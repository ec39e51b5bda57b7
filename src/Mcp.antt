-- ===== src/Mcp.antt =====
-- The tools of packages/mcp/src/tools as actions on the state of the orchestrator.
pub mod Replies
pub mod ExecutionTools
pub mod QueueTools
pub mod TaskTools
pub mod ProjectTools
