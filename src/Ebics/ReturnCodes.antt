-- ===== src/Ebics/ReturnCodes.antt =====
-- painfree/ebics3/returncodes.py: the table of return codes and `lookup`.
mod Defs
mod Table
mod Lookup
pub mod Laws
unfoldable pub use Defs.*
unfoldable pub use Table.*
unfoldable pub use Lookup.*
