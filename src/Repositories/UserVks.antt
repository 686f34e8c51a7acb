-- ===== src/Repositories/UserVks.antt =====
-- src/repositories/user_vk.py
mod Base
pub mod Effects
unfoldable pub use Base.*
