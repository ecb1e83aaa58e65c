-- ===== src/Reconcile/Codes.antt =====
-- `STATUS_CODES` of painfree/reconcile.py: every status that the service recognises.
use painfree_ebics_middlewar.Prelude.{
  Text, text, text_eq, Bool, true, false, any, Option, none, some, List, [], ◌∷◌, if◌then◌else◌,
}
use painfree_ebics_middlewar.Orders.Rows.{OrderState}

-- What a code tells the service to do with the order.
pub data Disposition : Type 0 where
  accepts refuses partial undecided : Disposition

pub record StatusCode : Type 0 where
  pub code : Text
  pub name : Text
  pub meaning : Text
  pub disposition : Disposition

abbrev status_entry : (code name meaning : Text) → Disposition → StatusCode
status_entry code name meaning disposition = record {
  code = code;
  name = name;
  meaning = meaning;
  disposition = disposition;
}

abbrev pub status_codes : List StatusCode
status_codes =
    status_entry (text "ACTC") (text "AcceptedTechnicalValidation")
      (text "the file passed the bank's technical checks") Disposition.accepts
    ∷ status_entry (text "ACCP") (text "AcceptedCustomerProfile")
        (text "the file passed the customer-profile checks") Disposition.accepts
    ∷ status_entry (text "ACFC") (text "AcceptedFundsChecked")
        (text "accepted, and the debtor's cover was checked") Disposition.accepts
    ∷ status_entry (text "ACSP") (text "AcceptedSettlementInProcess")
        (text "accepted and being settled") Disposition.accepts
    ∷ status_entry (text "ACSC") (text "AcceptedSettlementCompleted")
        (text "settled on the debtor's side") Disposition.accepts
    ∷ status_entry (text "ACCC") (text "AcceptedSettlementCompletedCreditorAccount")
        (text "settled and credited to the beneficiary") Disposition.accepts
    ∷ status_entry (text "ACWC") (text "AcceptedWithChange")
        (text "accepted, with something the bank changed") Disposition.accepts
    ∷ status_entry (text "ACWP") (text "AcceptedWithoutPosting")
        (text "accepted, not yet posted to the creditor's account") Disposition.accepts
    ∷ status_entry (text "ACPD") (text "AcceptedClearingProcessed")
        (text "accepted and handed to clearing") Disposition.accepts
    ∷ status_entry (text "PART") (text "PartiallyAccepted")
        (text "some of the batch was accepted and some refused") Disposition.partial
    ∷ status_entry (text "PATC") (text "PartiallyAcceptedTechnicalCorrect")
        (text "technically correct, partially accepted") Disposition.partial
    ∷ status_entry (text "RJCT") (text "Rejected") (text "refused; it will not be executed")
        Disposition.refuses
    ∷ status_entry (text "CANC") (text "Cancelled") (text "cancelled; it will not be executed")
        Disposition.refuses
    ∷ status_entry (text "RCVD") (text "Received") (text "received, nothing decided yet")
        Disposition.undecided
    ∷ status_entry (text "PDNG") (text "Pending") (text "pending; the bank is still working on it")
        Disposition.undecided
    ∷ status_entry (text "BLCK") (text "Blocked")
        (text "blocked at the bank; somebody there has to act") Disposition.undecided
    ∷ []

abbrev code_in : List StatusCode → Text → Option StatusCode
code_in [] t = none
code_in (c ∷ cs) t = if text_eq c.code t then some c else code_in cs t

-- `STATUS_CODES.get(status)`.
unfoldable pub status_code : Text → Option StatusCode
status_code t = code_in status_codes t

-- `STATUS_CODES.get(status or "")`.
abbrev pub status_of : Option Text → Option StatusCode
status_of none = none
status_of (some t) = status_code t

-- What a disposition does to an order: `None` is no change.
abbrev pub outcome_of : Disposition → Option OrderState
outcome_of Disposition.accepts = some OrderState.acknowledged
outcome_of Disposition.partial = some OrderState.acknowledged
outcome_of Disposition.refuses = some OrderState.rejected
outcome_of Disposition.undecided = none

-- `disposition in (ACCEPTS, PARTIAL)`.
abbrev pub takes : Disposition → Bool
takes Disposition.accepts = true
takes Disposition.partial = true
takes _ = false

-- `disposition == REFUSES`.
abbrev pub is_refusal : Disposition → Bool
is_refusal Disposition.refuses = true
is_refusal _ = false

-- `REVOCABLE`, the test of membership.
abbrev pub is_revocable : Text → Bool
is_revocable t = any (text_eq t) (text "ACTC" ∷ text "ACCP" ∷ text "ACFC" ∷ [])
