-- ===== src/Process.antt =====
-- The process that serves requests: how it starts and how it stops.
pub mod Script
pub mod Rules
mod Lifespan
pub mod Started
mod Closed
mod Tests
