-- ===== src/Common/Exec.antt =====
-- Methods that change shared state and may fail, and rules for blocks of them.
mod Defs
mod Outcomes
pub use Defs.*
pub use Outcomes.*
