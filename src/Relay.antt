-- ===== src/Relay.antt =====
-- services/relay
pub mod Api
pub mod External
pub mod Toy
pub mod Nonces
pub mod Pairing
pub mod Auth
pub mod State
pub mod Rooms
pub mod Ws
pub mod Ops
mod Tests
mod RequestTests
