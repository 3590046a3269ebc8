-- ===== src/Relay/Auth.antt =====
-- services/relay/src/auth
pub mod Pop
pub mod TokenCrypto
pub mod Replay
pub mod Token
pub mod Handlers
