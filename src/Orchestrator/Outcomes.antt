-- ===== src/Orchestrator/Outcomes.antt =====
-- How the calls of packages/orchestrator end, and what they leave behind.
pub mod Runs
pub mod Tracked
pub mod Steps
pub mod Routing
pub mod Settling
pub mod Completion
pub mod Recovery
pub mod Submission
pub mod Retries
pub mod Changes
pub mod Dialogue
pub mod Matching
pub mod Direct
