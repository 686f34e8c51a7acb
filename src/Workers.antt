-- ===== src/Workers.antt =====
-- src/workers: the probe of the queue.
pub mod Probe
mod Once
mod Tests
