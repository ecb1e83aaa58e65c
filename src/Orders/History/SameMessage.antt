-- ===== src/Orders/History/SameMessage.antt =====
-- Which uploads leave every message as it is: `_deliver` of painfree/worker.py.
use painfree_ebics_middlewar.Prelude.{
  ℕ, Text, Bool, true, false, Bool-cases, leb, Option, none, some, List, map, map-update_where, ◌≡◌,
  refl, ◌⊎◌, inl, inr,
}
use painfree_ebics_middlewar.Schemes.Profiles.{PaymentScheme, SchemeProfiles, refuses_instant}
use painfree_ebics_middlewar.Orders.Rows.{
  OrderState, OrderRow, AttemptState, AttemptRow, Action, Store, is_order, is_attempt,
}
use painfree_ebics_middlewar.Orders.Queue.{max_attempts, ClaimedOrder}
use painfree_ebics_middlewar.Orders.Queue.Outcomes.{
  update_order, settled_values, answered, answer_live, recorded, settle, submitted,
  submitted_values, refused, refused_values, failed_values, deferred_values, retry_later,
}
use painfree_ebics_middlewar.Orders.Queue.Fallback.{fall_back}
use painfree_ebics_middlewar.Orders.Worker.{
  UploadEnd, uploaded, bank_refused, transport_failed, upload_failed, deliver,
}

-- What of an order goes to the bank, and what an attempt is.
abbrev message_of : OrderRow → Text × Text × Text × Text × PaymentScheme
message_of o = (o.order_id, o.msg_id, o.payment_information_id, o.document, o.scheme)

abbrev attempt_of : AttemptRow → Text × AttemptState × Text × Text
attempt_of a = (a.attempt_id, a.state, a.msg_id, a.document)

abbrev pub HasSameMessages : Store → Store → Type 0
HasSameMessages s s' =
    (map message_of s'.orders ≡ map message_of s.orders)
    × (map attempt_of s'.attempts ≡ map attempt_of s.attempts)

-- The end is anything but a final refusal with a code that the connection takes for a refusal of instant.
abbrev pub IsNoRefusalOfInstant : SchemeProfiles → UploadEnd → Type 0
IsNoRefusalOfInstant profiles (bank_refused r request) =
    (r.retryable ≡ true) ⊎ (refuses_instant profiles (some r.return_code) ≡ false)
IsNoRefusalOfInstant profiles end = Unit

module _ (s : Store) (id : Text) where
  settle-HasSameMessages :
      (state : OrderState) (action : Action) (success : Bool) (code report_text : Option Text)
      (values : OrderRow → OrderRow) (now : ℕ)
      → ((o : OrderRow) → message_of (values o) ≡ message_of o)
      → HasSameMessages s (settle id state action success code report_text values now s)
  unfolding settle recorded answer_live update_order settled_values answered
  settle-HasSameMessages state action success code report_text values now keeps = (
    map-update_where message_of (is_order id) _ keeps s.orders,
    map-update_where attempt_of (is_attempt id AttemptState.live) _ (λ a. refl) s.attempts,
  )

  retry_later-HasSameMessages :
      (attempts : ℕ) (reason : Text) (code report_text : Option Text) (now : ℕ)
      → HasSameMessages s (retry_later id attempts reason code report_text now s).1
  unfolding retry_later update_order deferred_values failed_values
  retry_later-HasSameMessages attempts reason code report_text now =
      elim (Bool-cases (leb max_attempts attempts)) [
        | inl e ↦ rw e (
            settle-HasSameMessages OrderState.failed Action.payment_failed false code report_text _
              now (λ o. refl))
        | inr e ↦ rw e (map-update_where message_of (is_order id) _ (λ o. refl) s.orders, refl)
      ]

  refused-HasSameMessages :
      (schema_failures : Text → List Text) (code report_text request : Option Text) (now : ℕ)
      → HasSameMessages s (refused schema_failures id code report_text request now s).1
  unfolding refused refused_values
  refused-HasSameMessages schema_failures code report_text request now =
      settle-HasSameMessages OrderState.rejected Action.payment_rejected false code report_text _
        now (λ o. refl)

  submitted-HasSameMessages :
      (bank_order_id code report_text : Option Text) (now : ℕ)
      → HasSameMessages s (submitted id bank_order_id code report_text now s).1
  unfolding submitted submitted_values
  submitted-HasSameMessages bank_order_id code report_text now =
      settle-HasSameMessages OrderState.submitted Action.payment_submitted true code report_text _
        now (λ o. refl)

no_fall_back :
    (claimed : ClaimedOrder) (profiles : SchemeProfiles) (code report_text : Option Text) (now : ℕ)
    (s : Store)
    → refuses_instant profiles code ≡ false
    → fall_back claimed profiles code report_text now s ≡ (none, s)
unfolding fall_back
no_fall_back claimed profiles code report_text now s h = rw h refl

-- Unless the bank refused for good with a code that the connection takes for a refusal of instant, the
-- end of an upload changes no message of any order, and no attempt becomes live or is superseded: not
-- after a success, another refusal, a lost connection or an exception.
pub deliver-HasSameMessages :
    (schema_failures : Text → List Text) (profiles : SchemeProfiles) (now : ℕ)
    (claimed : ClaimedOrder) (end : UploadEnd) (s : Store)
    → IsNoRefusalOfInstant profiles end
    → HasSameMessages s (deliver schema_failures profiles now claimed end s).1
unfolding deliver
deliver-HasSameMessages schema_failures profiles now claimed
      (uploaded bank_order_id code report_text) s h =
    submitted-HasSameMessages s claimed.order.order_id bank_order_id code report_text now
deliver-HasSameMessages schema_failures profiles now claimed (bank_refused r request) s h =
    elim (Bool-cases r.retryable) [
      | inl e ↦
          rw e (retry_later-HasSameMessages s claimed.order.order_id claimed.attempts _ _ _ now)
      | inr e ↦
          rw
            (
              e,
              no_fall_back claimed profiles (some r.return_code) r.report_text now s
                  (other_code e h),
            )
            (refused-HasSameMessages s claimed.order.order_id schema_failures (some r.return_code)
              r.report_text request now)
    ]
  where
    other_code :
        r.retryable ≡ false
        → (r.retryable ≡ true) ⊎ (refuses_instant profiles (some r.return_code) ≡ false)
        → refuses_instant profiles (some r.return_code) ≡ false
    other_code e (inl retryable) = cc
    other_code e (inr other) = other
deliver-HasSameMessages schema_failures profiles now claimed (transport_failed reason) s h =
    retry_later-HasSameMessages s claimed.order.order_id claimed.attempts reason none none now
deliver-HasSameMessages schema_failures profiles now claimed (upload_failed reason) s h =
    retry_later-HasSameMessages s claimed.order.order_id claimed.attempts reason none none now
