-- ===== src/Ebics/Responses.antt =====
-- painfree/ebics3/responses.py: one bank response, and what its two return codes say together.
pub mod Status
pub mod Parse
pub mod Accepted
pub mod Refusals
unfoldable pub use Status.*
unfoldable pub use Parse.*
