-- ===== src/Relay/Pairing/Handlers.antt =====
-- services/relay/src/pairing/handlers
mod Ticket
mod Bootstrap
pub mod Lifetime
mod Exchange
unfoldable pub use Ticket.*
unfoldable pub use Bootstrap.*
unfoldable pub use Exchange.*
