-- ===== src/Sidecar/Stores.antt =====
-- services/sidecar/src/stores.rs: the tools and the devices that the sidecar remembers
pub mod Identity
pub mod Whitelist
pub mod Controllers
mod Tests
