-- ===== src/Repositories/Confirmations.antt =====
-- src/repositories/vk_confirmation.py
mod Base
pub mod Effects
unfoldable pub use Base.*
