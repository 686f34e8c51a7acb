-- ===== src/Services/Confirm.antt =====
-- src/core/services/vk_confirmation.py
mod Base
pub mod Refused
pub mod Linked
pub mod Outcome
pub mod Verdict
mod Tests
unfoldable pub use Base.*
