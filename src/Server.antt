-- ===== src/Server.antt =====
-- The HTTP server of packages/server/src: its routes as handlers of the orchestrator's state.
pub mod Replies
pub mod ExecutionRoutes
pub mod InternalRoutes
pub mod QueueRoutes
pub mod TaskRoutes
pub mod Inputs
pub mod Conflicts
