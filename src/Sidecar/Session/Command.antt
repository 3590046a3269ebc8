-- ===== src/Sidecar/Session/Command.antt =====
-- services/sidecar/src/session/loop/command.rs: `handle_sidecar_command`
pub mod Context
pub mod Refusal
pub mod Tools
pub mod Requests
pub mod Media
pub mod Handle
pub mod Keeping
pub mod Kept
pub mod Answered
pub mod Rebound
pub mod Strangers
pub mod Refused
