-- ===== src/Orchestrator/Service.antt =====
-- packages/orchestrator/src/orchestrator-service.ts, in the order of its methods.
pub mod Submit
pub mod Complete
pub mod Run
pub mod Recover
pub mod Match
pub mod Input
pub mod Workers
