-- ===== src/System.antt =====
-- The service as a whole: requests, events of the bot and messages of the stream, in any order.
mod Base
mod Requests
mod Queries
mod Events
mod Runs
mod Lives
mod Replay
mod Tests
