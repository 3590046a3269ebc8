-- ===== src/Relay/Auth/Handlers.antt =====
-- services/relay/src/auth/handlers: refresh, revoke, list and the check of access tokens. What a
-- handler gets from outside (clock, random parts, the outcome of the write) is in `Readings`.
mod Outside
mod Verify
pub mod Session
mod Refresh
mod Revoke
mod Devices
unfoldable pub use Outside.*
unfoldable pub use Verify.*
unfoldable pub use Refresh.*
unfoldable pub use Revoke.*
unfoldable pub use Devices.*
