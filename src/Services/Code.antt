-- ===== src/Services/Code.antt =====
-- src/core/services/vk_code.py
mod Tests
mod Base
pub mod Laws
unfoldable pub use Base.*
