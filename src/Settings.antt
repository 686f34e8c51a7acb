-- ===== src/Settings.antt =====
-- src/settings.py: the validators and the computed settings, but for the group's (Api.BotInfo).
mod Base
mod Secrets
mod Lists
mod Tests
unfoldable pub use Base.*
