-- ===== src/Cron.antt =====
-- Cron expressions: reading one, and the next time that it names. painfree/cron.py.
pub mod Calendar
pub mod Expressions
pub mod Permits
pub mod Parsed
pub mod Search
