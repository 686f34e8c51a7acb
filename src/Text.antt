-- ===== src/Text.antt =====
-- Python's `str`, as far as the service walks it.
mod Base
pub mod Laws
pub mod Parts
pub mod Words
pub mod Json
unfoldable pub use Base.*
