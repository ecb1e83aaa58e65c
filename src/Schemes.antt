-- ===== src/Schemes.antt =====
-- painfree/schemes.py: how a payment is sent, decided per connection. A set of scheme profiles, what
-- the bank's refusal of instant is, and `resolve`.
pub mod Profiles
pub mod Resolve
