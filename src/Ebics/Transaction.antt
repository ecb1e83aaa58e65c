-- ===== src/Ebics/Transaction.antt =====
-- painfree/ebics3/transaction.py: the phases of a transaction, and its two directions.
pub mod Feed
pub mod Upload
pub mod Download
