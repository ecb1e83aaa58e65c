-- ===== src/Examples/WebhookDeliveries.antt =====
-- Webhook deliveries at concrete inputs: painfree/webhooks.py, painfree/dispatcher.py,
-- painfree/redelivery.py.

use painfree_ebics_middlewar.Prelude.{
  ℕ, Text, text, text_eq, true, none, some, List, [], ◌∷◌, ◌++◌, update_where, select_where, ◌≡◌,
  refl, map,
}
use painfree_ebics_middlewar.Webhooks.Rows.{
  DeliveryState, same_delivery_state, DeliveryRow, SubscriptionRow, Hooks,
}
use painfree_ebics_middlewar.Webhooks.FanOut.{
  AuditedEvent, event_type_of, live_subscriptions, insert_deliveries, fan_out,
}
use painfree_ebics_middlewar.Webhooks.Dispatch.{
  is_owed, is_deliverable, least_seq, claimed_values, claim_delivery, delivery_lease,
}
use painfree_ebics_middlewar.Webhooks.Finish.{
  settle_delivery, failed_values, retried_values, subscription_failed, retry_delivery,
  finish_delivery,
}
use painfree_ebics_middlewar.Webhooks.Manage.{is_redeliverable, requeue, redeliver}
use painfree_ebics_middlewar.Webhooks.Tables.{InOrder}
use painfree_ebics_middlewar.Webhooks.Head.{Takes, claim_delivery-Takes}
use painfree_ebics_middlewar.Webhooks.Steps.{Steps, here, then, claims, owes}
use painfree_ebics_middlewar.Webhooks.OneOnWire.{OneOnWire, steps-OneOnWire}

abbrev endpoint : SubscriptionRow
endpoint = record {
  subscription_id = text "whs_1";
  connection_id = none;
  url = text "https://erp.example";
  event_types = text "order.accepted" ∷ text "order.submitted" ∷ [];
  enabled = true;
  parked_at = none;
  consecutive_failures = 0;
  last_delivery_at = none;
  last_status = none;
  last_error = none;
  updated_at = 0;
}

abbrev row : ℕ → Text → Text → DeliveryState → DeliveryRow
row seq delivery_id event_type state = record {
  seq = seq;
  delivery_id = delivery_id;
  subscription_id = text "whs_1";
  event_id = delivery_id;
  event_type = event_type;
  connection_id = some (text "bank");
  order_id = some (text "ord_1");
  payload = text "{}";
  state = state;
  attempts = 0;
  next_attempt_at = some 0;
  worker_id = none;
  claimed_at = none;
  last_status = none;
  last_error = none;
  delivered_at = none;
  updated_at = 0;
}

abbrev nothing_owed : Hooks
nothing_owed = record { deliveries = []; subscriptions = endpoint ∷ [] }

nothing_owed-InOrder : InOrder nothing_owed
nothing_owed-InOrder = record {
  distinct_seq = tt;
  on_wire = λ d x md. elim md [ ];
  parked = λ d u md. elim md [ ];
}

abbrev accepted_event : AuditedEvent
accepted_event = record {
  event_id = text "e1";
  action = text "payment.accepted";
  connection_id = some (text "bank");
  order_id = some (text "ord_1");
  body = text "{}";
}

abbrev one_owed : Hooks
one_owed = record nothing_owed {
  deliveries =
      record (row 1 (text "whd_whs_1") (text "order.accepted") DeliveryState.pending) {
        event_id = text "e1";
        next_attempt_at = some 5;
        updated_at = 5;
      }
      ∷ [];
}

abbrev delivery_ids : Text → Text
delivery_ids subscription_id = text "whd_" ++ subscription_id

one_owed-fan_out : fan_out delivery_ids accepted_event 5 nothing_owed ≡ some one_owed
unfolding fan_out event_type_of live_subscriptions insert_deliveries select_where text_eq
one_owed-fan_out = refl

-- The event is fanned out and claimed.
abbrev history : Steps nothing_owed (claim_delivery (text "d1") 6 delivery_lease one_owed).1
history =
    then
      (then (here nothing_owed)
        (owes delivery_ids accepted_event 5 nothing_owed one_owed one_owed-fan_out))
      (claims (text "d1") 6 delivery_lease one_owed)

steps-OneOnWire_example :
    OneOnWire (claim_delivery (text "d1") 6 delivery_lease one_owed).1
    × InOrder (claim_delivery (text "d1") 6 delivery_lease one_owed).1
steps-OneOnWire_example = steps-OneOnWire history nothing_owed-InOrder

one_owed-InOrder : InOrder one_owed
one_owed-InOrder =
    (steps-OneOnWire
      (then (here nothing_owed)
        (owes delivery_ids accepted_event 5 nothing_owed one_owed one_owed-fan_out))
      nothing_owed-InOrder).1

claim_delivery-Takes_example :
    Takes
      (text "d1")
      6
      delivery_lease
      one_owed
      (claim_delivery (text "d1") 6 delivery_lease one_owed)
claim_delivery-Takes_example =
    claim_delivery-Takes (text "d1") 6 delivery_lease one_owed one_owed-InOrder

-- The first delivery is over and the second is under way.
abbrev second_on_wire : Hooks
second_on_wire = record nothing_owed {
  deliveries =
      row 1 (text "a") (text "order.accepted") DeliveryState.delivered
      ∷ record (row 2 (text "b") (text "order.submitted") DeliveryState.delivering) {
        claimed_at = some 9;
      }
      ∷ [];
}

abbrev states : Hooks → List DeliveryState
states s = map (λ (d : DeliveryRow). d.state) s.deliveries

-- Sending the first again, while the second is under way, puts both under way.
redelivered_beside :
    states
      (claim_delivery
        (text "d2")
        10
        delivery_lease
        (redeliver (text "whs_1") (text "a") 10 second_on_wire).1).1
    ≡ DeliveryState.delivering ∷ DeliveryState.delivering ∷ []
unfolding redeliver requeue is_redeliverable same_delivery_state claim_delivery least_seq
    is_deliverable is_owed claimed_values update_where select_where text_eq
redelivered_beside = refl

-- A dispatcher that finishes late, after its lease lapsed and another one delivered, puts the event back.
put_back_late :
    states
      (finish_delivery
        (λ n. [])
        (row 1 (text "a") (text "order.accepted") DeliveryState.delivering)
        (record { status = none; error = some (text "timed out") })
        10
        second_on_wire).1
    ≡ DeliveryState.pending ∷ DeliveryState.delivering ∷ []
unfolding finish_delivery retry_delivery settle_delivery retried_values update_where text_eq
put_back_late = refl

-- The third delivery in a row that is given up parks the endpoint and what waits for it.
third_failure :
    states
      (finish_delivery
        (λ n. [])
        (record (row 1 (text "a") (text "order.accepted") DeliveryState.delivering) {
          attempts = 5;
        })
        (record { status = some 500; error = none })
        10
        (record {
          deliveries =
              row 1 (text "a") (text "order.accepted") DeliveryState.delivering
              ∷ row 2 (text "b") (text "order.submitted") DeliveryState.pending
              ∷ [];
          subscriptions = record endpoint { consecutive_failures = 2 } ∷ [];
        })).1
    ≡ DeliveryState.failed ∷ DeliveryState.parked ∷ []
unfolding finish_delivery retry_delivery settle_delivery failed_values subscription_failed
    same_delivery_state update_where select_where text_eq
third_failure = refl
