-- ===== src/Lifecycle.antt =====
-- The life of an owner's link to a VK account, as src/models/user_vk.py and the services have it:
-- what they make of it in every event, whatever rows the tables have.
pub mod Base
mod Rows
mod Changes
mod Permits
pub mod Kept
