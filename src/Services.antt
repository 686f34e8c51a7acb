-- ===== src/Services.antt =====
-- src/core/services: the domain services over the repositories, and the messenger that they use.
pub mod Code
pub mod Time
pub mod Messenger
pub mod Binding
pub mod Confirm
pub mod State
pub mod Delivery
pub mod Uncommitted
