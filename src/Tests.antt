-- ===== src/Tests.antt =====
-- Runs of the model on small worlds.
mod Sample
mod Lifecycle
mod Store
mod Outcomes
mod Dialogue
mod Wire
mod Executor
mod Sessions
mod Agent
mod Migrations
mod Transport
mod Server
mod Mcp
mod Web
