-- ===== src/Sidecar.antt =====
-- services/sidecar
pub mod Control
pub mod Stores
pub mod Session
