-- ===== src/Ebics/Transaction/Upload/Masking.antt =====
-- A refused order under a technical notice: what `feed` of an upload makes of it.
use painfree_ebics_middlewar.Prelude.{
  ◌+◌, text, text_eq, strip, lstrip, is_space, true, false, length, some, ◌≡◌, refl, arith,
}
use painfree_ebics_middlewar.Ebics.Errors.{ok}
use painfree_ebics_middlewar.Ebics.ReturnCodes.{
  ReturnCode, Family, Disposition, is_benign, named, table, find_code, lookup, is_ok, is_terminal,
  needs_recovery, ends_transaction, raises,
}
use painfree_ebics_middlewar.Ebics.Responses.{
  BankResponse, classify, status_ok, status_needs_recovery, status_ends_transaction,
  raise_for_status,
}
use painfree_ebics_middlewar.Ebics.Transaction.Feed.{Phase, feed_step, feed_response}
use painfree_ebics_middlewar.Ebics.Transaction.Upload.{Upload, upload_direction, advance}

abbrev params_ignored : ReturnCode
params_ignored = record {
  code = text "031001";
  name = some (text "EBICS_ORDER_PARAMS_IGNORED");
  family = Family.technical;
  disposition = Disposition.notice;
}

lookup-params_ignored : lookup (some (text "031001")) ≡ some params_ignored
unfolding lookup named find_code table text_eq strip lstrip is_space
lookup-params_ignored = refl

module _ (r : BankResponse) (b : ReturnCode) (h : r.header_return_code ≡ some (text "031001"))
    (k : lookup r.body_return_code ≡ some b) (t : is_terminal b ≡ true) where
  is_refused : status_ok (classify r) ≡ false
  unfolding status_ok classify is_terminal is_benign needs_recovery
  is_refused = rw (h, lookup-params_ignored, k) (ground arith)

  no_recovery : status_needs_recovery (classify r) ≡ false
  unfolding status_needs_recovery classify is_terminal needs_recovery
  no_recovery = rw (h, lookup-params_ignored, k) (ground arith)

  no_end : status_ends_transaction (classify r) ≡ false
  unfolding status_ends_transaction classify is_terminal ends_transaction
  no_end = rw (h, lookup-params_ignored, k) (ground arith)

  no_exception : raise_for_status (classify r) ≡ ok tt
  unfolding raise_for_status classify is_ok raises
  no_exception = rw (h, lookup-params_ignored)

  masked_step : (u : Upload) → feed_response upload_direction r u ≡ feed_step upload_direction r u
  unfolding feed_response
  masked_step u = rw (no_recovery, no_exception, no_end)

  step_done :
      (u : Upload)
      → u.phase ≡ Phase.transfer
      → length u.segments ≡ u.cursor + 1
      → let o = feed_step upload_direction r u in (o.0 ≡ ok r) × (o.1.phase ≡ Phase.done)
  unfolding feed_step advance
  step_done u p e = ground arith

-- If the header says 031001 (some parameters were ignored) and the code of the order is terminal, the
-- response is a refusal, and yet `feed` takes the step as accepted: on the last segment the
-- upload is done, so the order counts as submitted.
pub feed_response-masked :
    (r : BankResponse) (u : Upload) (b : ReturnCode)
    → r.header_return_code ≡ some (text "031001")
    → lookup r.body_return_code ≡ some b
    → is_terminal b ≡ true
    → u.phase ≡ Phase.transfer
    → length u.segments ≡ u.cursor + 1
    → (status_ok (classify r) ≡ false)
      × let o = feed_response upload_direction r u in (o.0 ≡ ok r) × (o.1.phase ≡ Phase.done)
feed_response-masked r u b h k t p e =
    (is_refused r b h k t, rw (masked_step r b h k t u) (step_done r b h k t u p e))
