-- ===== src/Relay/Ws.antt =====
-- services/relay/src/ws
pub mod Access
pub mod Auth
pub mod Envelope
pub mod Takeover
