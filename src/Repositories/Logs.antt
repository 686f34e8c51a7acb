-- ===== src/Repositories/Logs.antt =====
-- src/repositories/vk_log.py
mod Base
pub mod Effects
unfoldable pub use Base.*
