-- ===== src/Orders/Worker.antt =====
-- `UploadWorker` of painfree/worker.py: what one claimed order comes to. How an upload ended is an
-- argument; the exchanges are those of the EBICS engine.
use painfree_ebics_middlewar.Prelude.{ℕ, Text, text, Option, none, some, List, ◌++◌, if◌then◌else◌}
use painfree_ebics_middlewar.Ebics.Errors.{Refusal}
use painfree_ebics_middlewar.Schemes.Profiles.{SchemeProfiles}
use painfree_ebics_middlewar.Orders.Rows.{OrderState, Store}
use painfree_ebics_middlewar.Orders.Queue.{ClaimedOrder}
use painfree_ebics_middlewar.Orders.Queue.Outcomes.{submitted, refused, retry_later}
use painfree_ebics_middlewar.Orders.Queue.Fallback.{Downgrade, fall_back}

-- How `_upload` ends: with a result, with the bank's refusal and the request that it refused, or with
-- any other exception, of which the text is kept.
pub data UploadEnd : Type 0 where
  uploaded : (bank_order_id return_code report_text : Option Text) → UploadEnd
  bank_refused : Refusal → (request : Option Text) → UploadEnd
  transport_failed : (reason : Text) → UploadEnd
  upload_failed : (reason : Text) → UploadEnd

module _ (schema_failures : Text → List Text) (profiles : SchemeProfiles) (now : ℕ)
    (claimed : ClaimedOrder) where
  abbrev pub after_fall_back :
      Refusal → Option Text → Store → Option Downgrade × Store → OrderState × Store
  after_fall_back r request s (some downgrade, s') = (OrderState.accepted, s')
  after_fall_back r request s (none, s') =
      refused schema_failures claimed.order.order_id (some r.return_code) r.report_text request now
        s'

  -- `_deliver`, from the way that `_upload` ended.
  unfoldable pub deliver : UploadEnd → Store → OrderState × Store
  deliver (uploaded bank_order_id return_code report_text) s =
      submitted claimed.order.order_id bank_order_id return_code report_text now s
  deliver (bank_refused r request) s =
      if r.retryable
      then retry_later claimed.order.order_id claimed.attempts
          (text "bank returned " ++ r.return_code) (some r.return_code) r.report_text now s
      else after_fall_back r request s
          (fall_back claimed profiles (some r.return_code) r.report_text now s)
  deliver (transport_failed reason) s =
      retry_later claimed.order.order_id claimed.attempts reason none none now s
  deliver (upload_failed reason) s =
      retry_later claimed.order.order_id claimed.attempts reason none none now s
