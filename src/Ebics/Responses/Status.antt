-- ===== src/Ebics/Responses/Status.antt =====
-- `BankResponse`, `ResponseStatus` and `classify` of painfree/ebics3/responses.py.
use painfree_ebics_middlewar.Prelude.{
  Text, text_eq, is_some, ℤ, Bool, true, false, not, ◌&&◌, ◌||◌, Option, none, some, or_else,
  if◌then◌else◌,
}
use painfree_ebics_middlewar.Ebics.Errors.{Error, Refusal, Result, ok, err}
use painfree_ebics_middlewar.Ebics.ReturnCodes.{
  ReturnCode, is_ok, is_benign, ends_transaction, needs_recovery, is_retryable, is_terminal, raises,
  lookup,
}

-- The transaction key is the text of its bytes.
pub record BankResponse : Type 0 where
  pub header_return_code : Option Text
  pub body_return_code : Option Text
  pub report_text : Option Text
  pub transaction_id : Option Text
  pub transaction_phase : Option Text
  pub num_segments : Option ℤ
  pub segment_number : Option ℤ
  pub last_segment : Option Bool
  pub order_id : Option Text
  pub order_data : Option Text
  pub transaction_key_encrypted : Option Text

pub record ResponseStatus : Type 0 where
  pub technical : Option ReturnCode
  pub business : Option ReturnCode
  pub report_text : Option Text

-- `code.p` of a code that may be absent.
abbrev pub holds : (ReturnCode → Bool) → Option ReturnCode → Bool
holds p none = false
holds p (some r) = p r

-- `technical is not None and not technical.is_ok`.
abbrev pub is_decisive : Option ReturnCode → Bool
is_decisive none = false
is_decisive (some r) = not (is_ok r)

unfoldable pub decisive : ResponseStatus → Option ReturnCode
decisive s = if is_decisive s.technical then s.technical else or_else s.business s.technical

-- `code is self.technical` of a code of the order: both are the entry of `RETURN_CODES` for one code. A
-- code that is not in the table, which has no name, is a new object each time.
abbrev is_technical : Option ReturnCode → ReturnCode → Bool
is_technical none b = false
is_technical (some r) b = is_some r.name && text_eq r.code b.code

-- `code is None or code is self.technical`: the decisive code is the technical object itself
-- when the technical code decides, when there is no code of the order, and when the two are one object.
unfoldable pub decisive_report_text : ResponseStatus → Option Text
decisive_report_text s = if is_decisive s.technical then s.report_text else elim s.business [
  | none ↦ s.report_text
  | some b ↦ if is_technical s.technical b then s.report_text else none
]

abbrev pub no_refusal : Option ReturnCode → Bool
no_refusal none = true
no_refusal (some r) = is_benign r || needs_recovery r

unfoldable pub status_ok : ResponseStatus → Bool
status_ok s = no_refusal s.technical && no_refusal s.business

unfoldable pub status_needs_recovery : ResponseStatus → Bool
status_needs_recovery s = holds needs_recovery s.technical || holds needs_recovery s.business

unfoldable pub status_ends_transaction : ResponseStatus → Bool
status_ends_transaction s = holds ends_transaction s.technical || holds ends_transaction s.business

unfoldable pub refusal_of : ReturnCode → Option Text → Refusal
refusal_of r words = record {
  return_code = r.code;
  name = r.name;
  report_text = words;
  retryable = is_retryable r;
  terminal = is_terminal r;
}

abbrev raise_code : Option ReturnCode → Option Text → Result (Unit {0})
raise_code none words = ok tt
raise_code (some r) words =
    if raises r then err (Error.bank_refused (refusal_of r words)) else ok tt

unfoldable pub raise_for_status : ResponseStatus → Result (Unit {0})
unfolding decisive decisive_report_text
raise_for_status s = raise_code (decisive s) (decisive_report_text s)

unfoldable pub classify : BankResponse → ResponseStatus
classify r = record {
  technical = lookup r.header_return_code;
  business = lookup r.body_return_code;
  report_text = r.report_text;
}
