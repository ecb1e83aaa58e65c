-- ===== src/Sps.antt =====
-- The Swiss payment rules of painfree/sps.py. Texts are ASCII: on those `upper`, `isalpha` and `isdigit`
-- of Python are the functions below.
pub mod CheckDigits
pub mod Accounts
pub mod Rules
pub mod Detection
pub mod Remainders
pub mod Admissible
