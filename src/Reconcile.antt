-- ===== src/Reconcile.antt =====
-- Status reports: what a `pain.002` says about an order, and how it moves the order.
-- painfree/reconcile.py.
pub mod Codes
pub mod Reports
pub mod Decide
pub mod Headline
pub mod Reading
pub mod Apply
pub mod Moves
pub mod Verdicts
