-- ===== src/Reconcile/Reports.antt =====
-- A normalised `pain.002`, as painfree/pain002.py gives it to painfree/reconcile.py: the keys that the
-- reconciler reads.
use painfree_ebics_middlewar.Prelude.{
  Text, is_empty, Option, none, some, List, [], ◌∷◌, ◌++◌, if◌then◌else◌,
}

-- An element of `reasons`.
pub record Reason : Type 0 where
  pub code : Option Text
  pub proprietary : Option Text
  pub additional_information : List Text

-- An element of `transactions`.
pub record TransactionStatus : Type 0 where
  pub instruction_id : Option Text
  pub end_to_end_id : Option Text
  pub status : Option Text
  pub acceptance_datetime : Option Text
  pub reasons : List Reason

-- An element of `payments`.
pub record PaymentStatus : Type 0 where
  pub payment_information_id : Option Text
  pub status : Option Text
  pub transactions : List TransactionStatus
  pub reasons : List Reason

-- The payload: `created_at` of the header, the original's message and status, and what is below.
pub record StatusReport : Type 0 where
  pub created_at : Option Text
  pub message_identification : Option Text
  pub status : Option Text
  pub reasons : List Reason
  pub payments : List PaymentStatus

-- `original_message_id`.
unfoldable pub original_message_id : StatusReport → Option Text
original_message_id p = p.message_identification

-- The transactions of all blocks, in their order.
abbrev pub transactions_of : List PaymentStatus → List TransactionStatus
transactions_of [] = []
transactions_of (b ∷ bs) = b.transactions ++ transactions_of bs

-- A text that is there and not empty, as the truth of Python's `str | None`.
abbrev pub given : Option Text → Option Text
given none = none
given (some t) = if is_empty t then none else some t

-- `a or b`.
abbrev pub or_given : Option Text → Option Text → Option Text
or_given none b = b
or_given (some t) b = if is_empty t then b else some t
