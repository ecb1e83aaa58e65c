-- ===== src/Webhooks/Rows.antt =====
-- The tables `webhook_delivery` and `webhook_subscription` of painfree/schema.py, without the secrets of a
-- subscription and the columns that are only shown.
use painfree_ebics_middlewar.Prelude.{
  ℕ, max, Text, text_eq, Bool, true, false, Option, List, [], ◌∷◌,
}

-- `PENDING`, `DELIVERING`, `DELIVERED`, `FAILED`, `PARKED`.
pub data DeliveryState : Type 0 where
  pending delivering delivered failed parked : DeliveryState

unfoldable pub same_delivery_state : DeliveryState → DeliveryState → Bool
same_delivery_state DeliveryState.pending DeliveryState.pending = true
same_delivery_state DeliveryState.delivering DeliveryState.delivering = true
same_delivery_state DeliveryState.delivered DeliveryState.delivered = true
same_delivery_state DeliveryState.failed DeliveryState.failed = true
same_delivery_state DeliveryState.parked DeliveryState.parked = true
same_delivery_state _ _ = false

-- A row of `webhook_delivery`; the payload is its canonical body.
pub record DeliveryRow : Type 0 where
  pub seq : ℕ
  pub delivery_id : Text
  pub subscription_id : Text
  pub event_id : Text
  pub event_type : Text
  pub connection_id : Option Text
  pub order_id : Option Text
  pub payload : Text
  pub state : DeliveryState
  pub attempts : ℕ
  pub next_attempt_at : Option ℕ
  pub worker_id : Option Text
  pub claimed_at : Option ℕ
  pub last_status : Option ℕ
  pub last_error : Option Text
  pub delivered_at : Option ℕ
  pub updated_at : ℕ

-- A row of `webhook_subscription`.
pub record SubscriptionRow : Type 0 where
  pub subscription_id : Text
  pub connection_id : Option Text
  pub url : Text
  pub event_types : List Text
  pub enabled : Bool
  pub parked_at : Option ℕ
  pub consecutive_failures : ℕ
  pub last_delivery_at : Option ℕ
  pub last_status : Option ℕ
  pub last_error : Option Text
  pub updated_at : ℕ

pub record Hooks : Type 0 where
  pub deliveries : List DeliveryRow
  pub subscriptions : List SubscriptionRow

abbrev pub is_delivery : Text → DeliveryRow → Bool
is_delivery id d = text_eq d.delivery_id id

abbrev pub is_subscription : Text → SubscriptionRow → Bool
is_subscription id u = text_eq u.subscription_id id

-- The next number of an autoincrement column.
abbrev pub greatest_seq : List DeliveryRow → ℕ
greatest_seq [] = 0
greatest_seq (d ∷ ds) = max d.seq (greatest_seq ds)
