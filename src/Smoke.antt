-- ===== src/Smoke.antt =====
-- src/smoke_harness: the isolated names of a run, its targets, and the messenger that stands in for VK.
mod Topology
mod Messenger
mod Targets
pub mod Config
pub mod Environment
pub mod Permitted
mod Accepted
pub mod Runner
pub mod Waiting
pub mod Run
pub mod Cleaned
pub mod Neutral
mod Ran
mod Main
mod Tests
