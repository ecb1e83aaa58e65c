-- ===== src/Webhooks.antt =====
-- Events for other systems: the deliveries that are owed, the dispatcher that sends them, and the
-- operator's hand in it. painfree/webhooks.py, painfree/dispatcher.py, painfree/redelivery.py.
pub mod Rows
pub mod FanOut
pub mod Dispatch
pub mod Finish
pub mod Manage
pub mod Tables
pub mod Head
pub mod Changes
pub mod Added
pub mod Steps
pub mod OneOnWire
pub mod Parking
