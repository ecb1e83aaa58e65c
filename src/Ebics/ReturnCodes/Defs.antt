-- ===== src/Ebics/ReturnCodes/Defs.antt =====
-- What a return code is: the types and the properties of painfree/ebics3/returncodes.py.
use Prim.Native.String.{String}
use painfree_ebics_middlewar.Prelude.{
  Text, text, Bool, true, false, not, ◌||◌, Option, some, is_some,
}

pub data Family : Type 0 where
  success technical authentication transaction key_management business unknown : Family

pub data Disposition : Type 0 where
  success notice completed recoverable retryable terminal : Disposition

pub data Severity : Type 0 where
  ok info warning error : Severity

-- `_SEVERITY`.
unfoldable pub severity_of : Disposition → Severity
severity_of Disposition.success = Severity.ok
severity_of Disposition.notice = Severity.info
severity_of Disposition.completed = Severity.info
severity_of Disposition.recoverable = Severity.warning
severity_of Disposition.retryable = Severity.warning
severity_of Disposition.terminal = Severity.error

pub record ReturnCode : Type 0 where
  pub code : Text
  pub name : Option Text
  pub family : Family
  pub disposition : Disposition

unfoldable pub named : String → String → Family → Disposition → ReturnCode
named code name family disposition = record {
  code = text code;
  name = some (text name);
  family = family;
  disposition = disposition;
}

-- The tests `self.disposition is Disposition.X`.
abbrev is_success : Disposition → Bool
is_success Disposition.success = true
is_success _ = false

abbrev is_benign_disposition : Disposition → Bool
is_benign_disposition Disposition.success = true
is_benign_disposition Disposition.notice = true
is_benign_disposition Disposition.completed = true
is_benign_disposition _ = false

abbrev is_completed : Disposition → Bool
is_completed Disposition.completed = true
is_completed _ = false

abbrev is_recoverable : Disposition → Bool
is_recoverable Disposition.recoverable = true
is_recoverable _ = false

abbrev is_retryable_disposition : Disposition → Bool
is_retryable_disposition Disposition.retryable = true
is_retryable_disposition _ = false

abbrev is_terminal_disposition : Disposition → Bool
is_terminal_disposition Disposition.terminal = true
is_terminal_disposition _ = false

unfoldable pub known : ReturnCode → Bool
known r = is_some r.name

unfoldable pub severity : ReturnCode → Severity
unfolding severity_of
severity r = severity_of r.disposition

unfoldable pub is_ok : ReturnCode → Bool
is_ok r = is_success r.disposition

unfoldable pub is_benign : ReturnCode → Bool
is_benign r = is_benign_disposition r.disposition

unfoldable pub ends_transaction : ReturnCode → Bool
ends_transaction r = is_completed r.disposition

unfoldable pub needs_recovery : ReturnCode → Bool
needs_recovery r = is_recoverable r.disposition

unfoldable pub is_retryable : ReturnCode → Bool
is_retryable r = is_retryable_disposition r.disposition

unfoldable pub is_terminal : ReturnCode → Bool
is_terminal r = is_terminal_disposition r.disposition

unfoldable pub raises : ReturnCode → Bool
unfolding is_benign needs_recovery
raises r = not (is_benign r || needs_recovery r)
