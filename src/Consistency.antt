-- ===== src/Consistency.antt =====
-- What holds of the committed database between any two requests, events and messages, whatever
-- they are and however they end.
pub mod Base
pub mod Rows
mod Changes
mod Moves
pub mod Kept
