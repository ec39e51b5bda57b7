-- ===== src/Orchestrator/Frames.antt =====
-- Rules for relations between the store before and the store after a handler of
-- packages/orchestrator. A relation is stable if it is reflexive and transitive and holds across
-- each statement that the handlers run.
mod Rules
mod Statements
pub mod Queues
pub mod Service
pub use Rules.*
