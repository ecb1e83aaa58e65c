-- ===== src/Ebics/Transaction/Feed.antt =====
-- `Phase` and `_Transaction` of painfree/ebics3/transaction.py: what the two directions share. A
-- method that mutates the object returns the object as it left it beside its result, also where it
-- raises. The constant fields (the request context, the keys and the schema location) only go into
-- the documents that are built and are left out.
pub mod Keeps
use painfree_ebics_middlewar.Prelude.{
  ℕ, Text, is_empty, ℤ, pos, negsuc, Bool, true, false, not, ◌&&◌, is_some, Option, none, some, [],
  ◌∷◌, if◌then◌else◌,
}
use painfree_ebics_middlewar.Ebics.Errors.{Error, TransactionFault, Result, ok, err}
use painfree_ebics_middlewar.Ebics.Xml.{Element}
use painfree_ebics_middlewar.Ebics.Responses.{
  BankResponse, classify, status_needs_recovery, status_ends_transaction, raise_for_status,
}

pub data Phase : Type 0 where
  initialisation transfer receipt done : Phase

-- `_Transaction`.
pub record Transaction : Type 0 where
  pub transaction_id : Option Text
  pub phase : Phase
  pub cursor : ℕ

abbrev pub opening : Transaction
opening = record { transaction_id = none; phase = Phase.initialisation; cursor = 0 }

-- The arguments of `build_transfer_request` and `build_receipt_request` that are not constant.
pub data Request : Type 0 where
  transfer_request :
      (transaction_id : Text)
      → (segment_number : ℕ) → (last_segment : Bool) → (order_data : Option Text) → Request
  receipt_request : (transaction_id : Text) → (acknowledged : Bool) → Request

-- `a or b` on optional texts, where an empty text is no value either.
abbrev pub or_text : Option Text → Option Text → Option Text
or_text none b = b
or_text (some []) b = b
or_text (some (c ∷ s)) b = some (c ∷ s)

abbrev pub is_truthy : Option Text → Bool
is_truthy none = false
is_truthy (some s) = not (is_empty s)

abbrev pub Outcome : Type 0 → Type 0 → Type 0
Outcome A S = Result A × S

-- `_Transaction.resume_at`.
unfoldable pub resume_at : ℤ → Transaction → Outcome Unit Transaction
resume_at (negsuc n) t = (err (Error.transaction TransactionFault.negative_recovery_point), t)
resume_at (pos n) t = (ok tt, record t { cursor = n; phase = Phase.transfer })

-- `_require_transaction`.
unfoldable pub require_transaction : Transaction → Result Text
require_transaction t = elim t.transaction_id [
  | none ↦ err (Error.transaction TransactionFault.not_initialised)
  | some id ↦ ok id
]

-- `response.segment_number or 0`.
abbrev pub recovery_point : BankResponse → ℤ
recovery_point r = elim r.segment_number [ none ↦ pos 0 | some n ↦ n ]

-- The methods that a direction overrides, and where it keeps the shared fields.
pub record Direction (S : Type 0) : Type 0 where
  pub shared : S → Transaction
  pub with_shared : S → Transaction → S
  pub resume : ℤ → S → Outcome Unit S
  pub advance : BankResponse → S → Outcome Unit S

-- `AuthSignatureCheck`, as far as `feed` reads it.
pub record AuthSignatureCheck : Type 0 where
  pub digest_ok : Bool
  pub signature_ok : Bool

abbrev returning : {S : Type 0} → BankResponse → Outcome Unit S → Outcome BankResponse S
returning r (ok _, s) = (ok r, s)
returning r (err e, s) = (err e, s)

abbrev pub is_initialisation : Phase → Bool
is_initialisation Phase.initialisation = true
is_initialisation _ = false

module _ {S : Type 0} (d : Direction S) where
  -- The rest of `feed` for a response that is neither a recovery point nor the end.
  unfoldable pub feed_step : BankResponse → S → Outcome BankResponse S
  feed_step r s =
      let t = d.shared s in
      if is_initialisation t.phase
      then (if is_truthy r.transaction_id
          then returning r
              (d.advance r (d.with_shared s (record t { transaction_id = r.transaction_id })))
          else (err (Error.transaction TransactionFault.no_transaction_id), s))
      else returning r (d.advance r s)

  abbrev feed_accepted : BankResponse → S → Result (Unit {0}) → Outcome BankResponse S
  feed_accepted r s (err e) = (err e, s)
  feed_accepted r s (ok _) =
      let t = d.shared s in
      if status_ends_transaction (classify r)
      then (
        ok r,
        d.with_shared s (record t {
          transaction_id = or_text r.transaction_id t.transaction_id;
          phase = Phase.done;
        }),
      )
      else feed_step r s

  -- `feed` after the document is parsed.
  unfoldable pub feed_response : BankResponse → S → Outcome BankResponse S
  feed_response r s =
      if status_needs_recovery (classify r) && is_some (d.shared s).transaction_id
      then returning r (d.resume (recovery_point r) s)
      else feed_accepted r s (raise_for_status (classify r))

  abbrev feed_parsed : Result BankResponse → S → Outcome BankResponse S
  feed_parsed (err e) s = (err e, s)
  feed_parsed (ok r) s = feed_response r s

  abbrev check_passes : AuthSignatureCheck → Bool
  check_passes c = c.digest_ok && c.signature_ok

  -- `feed`, over what reads the document and, if the bank's key is given, what checks it.
  unfoldable pub feed :
      (Element → Result BankResponse)
      → Option (Element → AuthSignatureCheck)
      → Element
      → S
      → Outcome BankResponse S
  feed parse none document s = feed_parsed (parse document) s
  feed parse (some verify) document s =
      let c = verify document in
      if check_passes c
      then feed_parsed (parse document) s
      else (err (Error.transaction (TransactionFault.bad_signature c.digest_ok c.signature_ok)), s)
