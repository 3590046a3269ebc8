-- ===== src/Sidecar/Session.antt =====
-- services/sidecar/src/session
pub mod Queue
pub mod Tool
pub mod Chats
pub mod Reports
pub mod Transport
pub mod Command
pub mod Launch
pub mod Details
mod Tests
