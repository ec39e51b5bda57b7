-- ===== src/Web.antt =====
-- The browser client of packages/web/src: the state that its pages share.
pub mod ChatStore
pub mod Requests
pub mod TaskStore
pub mod ExecutionStore
