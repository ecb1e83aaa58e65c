-- ===== src/Schedules.antt =====
-- The periodic downloads, and which days they have covered: painfree/schedule.py.
pub mod Rows
pub mod Claim
pub mod Finish
pub mod Manage
pub mod Steps
pub mod Coverage
