-- ===== src/Core.antt =====
-- The types shared by every package (packages/core).
pub mod Status
pub mod Errors
pub mod Types
pub mod Events
pub mod Json
pub mod Conversation
