-- ===== src/Api.antt =====
-- src/api: the endpoints over the services, each in a session of its own.
mod Session
mod Endpoints
pub mod Atomic
mod Parameters
pub mod BotInfo
mod Checked
pub mod Refusals
mod Tests
unfoldable pub use Session.*
unfoldable pub use Endpoints.*
