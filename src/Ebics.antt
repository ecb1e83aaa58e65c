-- ===== src/Ebics.antt =====
-- The EBICS engine, painfree/ebics3.
pub mod Errors
pub mod ReturnCodes
pub mod Xml
pub mod Responses
pub mod Segments
pub mod Transaction
