-- ===== src/Webhooks/FanOut.antt =====
-- `fan_out` of painfree/webhooks.py: an audit event becomes a delivery for each subscription that wants it.
use painfree_ebics_middlewar.Prelude.{
  ℕ, suc, Text, text, text_eq, Bool, true, ◌&&◌, ◌||◌, any, is_none, Option, none, some, List, [],
  ◌∷◌, ◌++◌, select_where, if◌then◌else◌,
}
use painfree_ebics_middlewar.Orders.Rows.{option_is}
use painfree_ebics_middlewar.Webhooks.Rows.{
  DeliveryState, DeliveryRow, SubscriptionRow, Hooks, greatest_seq,
}

-- `EVENT_TYPES`: the audit actions that are events, and their names on the wire.
abbrev event_types : List (Text × Text)
event_types =
    (text "payment.accepted", text "order.accepted")
    ∷ (text "payment.submitted", text "order.submitted")
    ∷ (text "payment.rejected", text "order.rejected")
    ∷ (text "payment.acknowledged", text "order.acknowledged")
    ∷ (text "payment.failed", text "order.failed")
    ∷ (text "payment.returned", text "order.returned")
    ∷ (text "payment.return_suspected", text "order.return_suspected")
    ∷ (text "payment.return_dismissed", text "order.return_dismissed")
    ∷ (text "statement.available", text "statement.available")
    ∷ []

abbrev name_in : List (Text × Text) → Text → Option Text
name_in [] action = none
name_in ((a, name) ∷ rest) action = if text_eq a action then some name else name_in rest action

unfoldable pub event_type_of : (action : Text) → Option Text
event_type_of action = name_in event_types action

-- An audit event, with the body that every delivery of it carries.
pub record AuditedEvent : Type 0 where
  pub event_id : Text
  pub action : Text
  pub connection_id : Option Text
  pub order_id : Option Text
  pub body : Text

abbrev is_for : (connection_id : Option Text) → SubscriptionRow → Bool
is_for connection_id u = elim u.connection_id [
  | none ↦ true
  | some own ↦ option_is connection_id own
]

-- The conditions of `live_subscriptions`.
abbrev pub wants : (event_type : Text) → (connection_id : Option Text) → SubscriptionRow → Bool
wants event_type connection_id u =
    u.enabled
    && is_none u.parked_at
    && any (λ t. text_eq t event_type) u.event_types
    && is_for connection_id u

unfoldable pub live_subscriptions :
    (event_type : Text)
    → (connection_id : Option Text) → List SubscriptionRow
    → List SubscriptionRow
live_subscriptions event_type connection_id subscriptions =
    select_where (wants event_type connection_id) subscriptions

-- One of `delivery_rows`, with the number that it gets.
abbrev pub delivery_row :
    (seq : ℕ)
    → (delivery_id : Text) → AuditedEvent
    → (event_type : Text) → SubscriptionRow
    → ℕ
    → DeliveryRow
delivery_row seq delivery_id e event_type u now = record {
  seq = seq;
  delivery_id = delivery_id;
  subscription_id = u.subscription_id;
  event_id = e.event_id;
  event_type = event_type;
  connection_id = e.connection_id;
  order_id = e.order_id;
  payload = e.body;
  state = DeliveryState.pending;
  attempts = 0;
  next_attempt_at = some now;
  worker_id = none;
  claimed_at = none;
  last_status = none;
  last_error = none;
  delivered_at = none;
  updated_at = now;
}

-- The unique columns: the id, and the event of a subscription.
abbrev pub clash : DeliveryRow → DeliveryRow → Bool
clash new d =
    text_eq d.delivery_id new.delivery_id
    || (text_eq d.subscription_id new.subscription_id && text_eq d.event_id new.event_id)

abbrev pub or_add :
    DeliveryRow → List DeliveryRow → Option (List DeliveryRow) → Option (List DeliveryRow)
or_add new rows rest = if any (clash new) rows then none else rest

-- The insert of a row for each subscription; ids are fresh. `none` is the `IntegrityError`.
unfoldable pub insert_deliveries :
    (delivery_id_of : Text → Text)
    → AuditedEvent
    → (event_type : Text) → List SubscriptionRow
    → ℕ
    → List DeliveryRow
    → Option (List DeliveryRow)
insert_deliveries delivery_id_of e event_type [] now rows = some rows
insert_deliveries delivery_id_of e event_type (u ∷ us) now rows =
    let new =
      delivery_row (suc (greatest_seq rows)) (delivery_id_of u.subscription_id) e event_type u
        now in
    or_add new rows (insert_deliveries delivery_id_of e event_type us now (rows ++ (new ∷ [])))

abbrev pub inserted_or_not : Hooks → Option (List DeliveryRow) → Option Hooks
inserted_or_not s none = none
inserted_or_not s (some rows) = some (record s { deliveries = rows })

abbrev pub fan_out_type :
    (delivery_id_of : Text → Text) → AuditedEvent → ℕ → Hooks → Option Text → Option Hooks
fan_out_type delivery_id_of e now s none = some s
fan_out_type delivery_id_of e now s (some event_type) = inserted_or_not s (
    insert_deliveries delivery_id_of e event_type
      (live_subscriptions event_type e.connection_id s.subscriptions) now s.deliveries)

-- `fan_out`; the exception fails the transaction of the audited operation.
unfoldable pub fan_out : (delivery_id_of : Text → Text) → AuditedEvent → ℕ → Hooks → Option Hooks
fan_out delivery_id_of e now s = fan_out_type delivery_id_of e now s (event_type_of e.action)
