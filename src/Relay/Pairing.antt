-- ===== src/Relay/Pairing.antt =====
-- services/relay/src/pairing
pub mod Ticket
pub mod Bootstrap
pub mod Handlers
