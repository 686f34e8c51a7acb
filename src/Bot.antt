-- ===== src/Bot.antt =====
-- src/bot: the events of the group.
mod Replies
pub mod Base
pub mod Attempts
pub mod Closing
pub mod Messages
pub mod Permissions
pub mod Command
mod Preflight
mod Started
mod Tests
