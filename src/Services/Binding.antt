-- ===== src/Services/Binding.antt =====
-- src/core/services/vk_binding.py
mod Tests
mod Base
pub mod Ensured
pub mod Issuing
pub mod Unlinked
unfoldable pub use Base.*
