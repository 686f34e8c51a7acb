-- ===== src/Exec.antt =====
-- Coroutines of the service, with what they are built from and the rules to reason about them.
mod Base
mod Rules
pub mod Preserves
unfoldable pub use Base.*
pub use Rules.*
