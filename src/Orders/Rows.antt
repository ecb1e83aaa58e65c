-- ===== src/Orders/Rows.antt =====
-- The tables that the queue works on: `payment_order` and `payment_attempt` of painfree/schema.py with
-- the states of painfree/orders.py and painfree/attempts.py, and the audit log.
use painfree_ebics_middlewar.Prelude.{
  ℕ, Text, Bool, true, false, ◌&&◌, leb, text_eq, Option, none, some, List, [], ◌∷◌, if◌then◌else◌,
}
use painfree_ebics_middlewar.Schemes.Profiles.{PaymentScheme}

-- `OrderState`.
pub data OrderState : Type 0 where
  accepted submitting submitted rejected acknowledged failed returned : OrderState

unfoldable pub same_state : OrderState → OrderState → Bool
same_state OrderState.accepted OrderState.accepted = true
same_state OrderState.submitting OrderState.submitting = true
same_state OrderState.submitted OrderState.submitted = true
same_state OrderState.rejected OrderState.rejected = true
same_state OrderState.acknowledged OrderState.acknowledged = true
same_state OrderState.failed OrderState.failed = true
same_state OrderState.returned OrderState.returned = true
same_state _ _ = false

-- A row of `payment_order`: the columns that the queue, the replay, the worker and the status reports
-- read or write. An
-- instant is a number of microseconds since the epoch.
pub record OrderRow : Type 0 where
  pub seq : ℕ
  pub order_id : Text
  pub connection_id : Text
  pub idempotency_key : Text
  pub request_fingerprint : Text
  pub state : OrderState
  pub msg_id : Text
  pub payment_information_id : Text
  pub document : Text
  pub bank_order_id : Option Text
  pub return_code : Option Text
  pub report_text : Option Text
  pub refused_request : Option Text
  pub refused_request_errors : Option (List Text)
  pub transaction_id : Option Text
  pub worker_id : Option Text
  pub claimed_at : Option ℕ
  pub attempts : ℕ
  pub next_attempt_at : Option ℕ
  pub last_error : Option Text
  pub bank_status : Option Text
  pub status_reason_code : Option Text
  pub status_reason_text : Option Text
  pub status_reported_at : Option ℕ
  pub requested_scheme : PaymentScheme
  pub scheme : PaymentScheme
  pub scheme_reason : Option Text
  pub updated_at : ℕ

-- `LIVE`, `PLANNED`, `SUPERSEDED`.
pub data AttemptState : Type 0 where
  planned live superseded : AttemptState

unfoldable pub same_attempt_state : AttemptState → AttemptState → Bool
same_attempt_state AttemptState.planned AttemptState.planned = true
same_attempt_state AttemptState.live AttemptState.live = true
same_attempt_state AttemptState.superseded AttemptState.superseded = true
same_attempt_state _ _ = false

-- A row of `payment_attempt`, which is an `Attempt`.
pub record AttemptRow : Type 0 where
  pub attempt_id : Text
  pub order_id : Text
  pub attempt_no : ℕ
  pub scheme : PaymentScheme
  pub state : AttemptState
  pub msg_id : Text
  pub payment_information_id : Text
  pub document : Text
  pub reason : Option Text
  pub return_code : Option Text
  pub report_text : Option Text
  pub updated_at : ℕ

-- An entry of the audit log, by what it is about.
pub data Action : Type 0 where
  payment_accepted payment_submitted payment_rejected payment_failed payment_scheme_downgraded :
      Action
  payment_replay_requested payment_conflict payment_replayed : Action
  payment_acknowledged payment_status_reported payment_status_ignored payment_status_unmatched :
      Action

pub record AuditEvent : Type 0 where
  pub action : Action
  pub success : Bool
  pub order_id : Option Text
  pub connection_id : Option Text
  pub idempotency_key : Option Text
  pub order_state : Option OrderState

pub record Store : Type 0 where
  pub orders : List OrderRow
  pub attempts : List AttemptRow
  pub audit : List AuditEvent

-- `payment_order.c.order_id == order_id`.
abbrev pub is_order : Text → OrderRow → Bool
is_order id o = text_eq o.order_id id

-- A nullable column that is equal to a value; `NULL` is equal to none.
abbrev pub option_is : Option Text → Text → Bool
option_is none t = false
option_is (some s) t = text_eq s t

-- The first row of a query for one order.
unfoldable pub find_order : Text → List OrderRow → Option OrderRow
find_order id [] = none
find_order id (o ∷ os) = if is_order id o then some o else find_order id os

abbrev pub is_attempt : Text → AttemptState → AttemptRow → Bool
is_attempt id state a = text_eq a.order_id id && same_attempt_state a.state state

abbrev pub earlier : AttemptRow → Option AttemptRow → AttemptRow
earlier a none = a
earlier a (some b) = if leb a.attempt_no b.attempt_no then a else b

-- `AttemptStore._one`: the row of an order in a state that has the least number.
unfoldable pub one : Text → AttemptState → List AttemptRow → Option AttemptRow
unfolding same_attempt_state
one id state [] = none
one id state (a ∷ rows) =
    let rest = one id state rows in if is_attempt id state a then some (earlier a rest) else rest
