-- ===== src/Reconcile/Apply.antt =====
-- A stored report moves its order, once: `StatusReconciler` of painfree/reconcile.py over the tables of
-- the orders.
use painfree_ebics_middlewar.Prelude.{
  ℕ, Text, text_eq, is_empty, Bool, true, false, not, ◌&&◌, ◌||◌, leb, Option, none, some, List, [],
  ◌∷◌, ◌++◌, first, update_where, select_where, is_some, if◌then◌else◌,
}
use painfree_ebics_middlewar.Orders.Rows.{
  OrderState, same_state, OrderRow, AttemptRow, Action, Store, is_order, option_is, find_order,
}
use painfree_ebics_middlewar.Reconcile.Codes.{is_revocable}
use painfree_ebics_middlewar.Reconcile.Reports.{StatusReport, original_message_id}
use painfree_ebics_middlewar.Reconcile.Decide.{StatusOutcome, resolve}

-- What `scalar_one_or_none` gives: `MultipleResultsFound` is raised on more than one row.
pub data AtMostOne : Type 0 where
  nothing_found : AtMostOne
  found : (order_id : Text) → AtMostOne
  several_found : AtMostOne

abbrev scalar_one_or_none : List OrderRow → AtMostOne
scalar_one_or_none [] = nothing_found
scalar_one_or_none (o ∷ []) = found o.order_id
scalar_one_or_none (o ∷ p ∷ os) = several_found

abbrev has_message : (connection_id msg_id : Text) → OrderRow → Bool
has_message connection_id msg_id o =
    text_eq o.connection_id connection_id && text_eq o.msg_id msg_id

-- The orders of a connection, once for each of their attempts that carried the message.
abbrev orders_of_attempts :
    (connection_id msg_id : Text) → List OrderRow → List AttemptRow → List OrderRow
orders_of_attempts connection_id msg_id orders [] = []
orders_of_attempts connection_id msg_id orders (a ∷ attempts) =
    let rest = orders_of_attempts connection_id msg_id orders attempts in
    if text_eq a.msg_id msg_id
    then select_where (λ o. text_eq o.order_id a.order_id && text_eq o.connection_id connection_id)
        orders
      ++ rest
    else rest

abbrev or_attempt : Store → (connection_id msg_id : Text) → AtMostOne → AtMostOne
or_attempt s connection_id msg_id nothing_found =
    scalar_one_or_none (orders_of_attempts connection_id msg_id s.orders s.attempts)
or_attempt s connection_id msg_id (found id) = found id
or_attempt s connection_id msg_id several_found = several_found

abbrev order_of_message : (connection_id : Text) → Option Text → Store → AtMostOne
order_of_message connection_id none s = nothing_found
order_of_message connection_id (some msg_id) s =
    if is_empty msg_id
    then nothing_found
    else or_attempt s connection_id msg_id
        (scalar_one_or_none (select_where (has_message connection_id msg_id) s.orders))

-- `order_for`.
unfoldable pub order_for : (connection_id : Text) → StatusReport → Store → AtMostOne
unfolding original_message_id
order_for connection_id p s = order_of_message connection_id (original_message_id p) s

-- `row.bank_status not in REVOCABLE`, and the dates.
abbrev pub overturned : ℕ → (status : Option Text) → (reported : Option ℕ) → Option Text
overturned written none reported = none
overturned written (some status) none = none
overturned written (some status) (some at) =
    if is_revocable status && not (leb written at) then some status else none

abbrev pub overturned_from :
    OrderState
    → (written : Option ℕ) → OrderState
    → (status : Option Text) → (reported : Option ℕ) → Option Text
overturned_from OrderState.rejected (some written) OrderState.acknowledged status reported =
    overturned written status reported
overturned_from _ _ _ _ _ = none

abbrev pub overturned_by : OrderState → Option ℕ → Option OrderRow → Option Text
overturned_by state written none = none
overturned_by state written (some o) =
    overturned_from state written o.state o.bank_status o.status_reported_at

-- `_revocable`.
unfoldable pub revocable :
    (order_id : Text) → OrderState → (written : Option ℕ) → List OrderRow → Option Text
revocable id state written orders = overturned_by state written (find_order id orders)

-- `state.in_(RECONCILES_FROM)`.
unfoldable pub reconciles_from : OrderState → Bool
unfolding same_state
reconciles_from state =
    same_state state OrderState.accepted || same_state state OrderState.submitted

-- `movable`.
unfoldable pub movable_from : (revoked : Option Text) → OrderState → Option Text → Bool
unfolding same_state reconciles_from
movable_from none state status = reconciles_from state
movable_from (some revoked) state status =
    same_state state OrderState.acknowledged && option_is status revoked

abbrev pub movable : (revoked : Option Text) → OrderRow → Bool
movable revoked o = movable_from revoked o.state o.bank_status

abbrev pub is_moved : Text → (revoked : Option Text) → OrderRow → Bool
is_moved id revoked o = is_order id o && movable revoked o

-- The values that a report writes.
unfoldable pub reported_values :
    OrderState → StatusOutcome → (written : Option ℕ) → ℕ → OrderRow → OrderRow
reported_values state outcome written now o = record o {
  state = state;
  bank_status = outcome.status;
  status_reason_code = outcome.reason_code;
  status_reason_text = outcome.reason_text;
  status_reported_at = written;
  worker_id = none;
  claimed_at = none;
  next_attempt_at = none;
  updated_at = now;
}

-- An entry of the audit log about a report.
abbrev pub noted :
    Action
    → Bool
    → (order_id connection_id idempotency_key : Option Text) → Option OrderState
    → Store
    → Store
noted action success order_id connection_id idempotency_key state s = record s {
  audit =
      s.audit
      ++ (record {
        action = action;
        success = success;
        order_id = order_id;
        connection_id = connection_id;
        idempotency_key = idempotency_key;
        order_state = state;
      }
          ∷ []);
}

abbrev moved_action : OrderState → Action
moved_action OrderState.acknowledged = Action.payment_acknowledged
moved_action _ = Action.payment_rejected

abbrev pub after_update :
    (connection_id id : Text) → OrderState → Option OrderRow → (before after : Store) → Bool × Store
after_update connection_id id state none before after = (false, before)
after_update connection_id id state (some row) before after = (
  true,
  noted (moved_action state) (same_state state OrderState.acknowledged) (some id)
      (some connection_id) (some row.idempotency_key) (some state) after,
)

-- `state = outcome.state or OrderState.ACKNOWLEDGED`.
abbrev pub written_state : Option OrderState → OrderState
written_state none = OrderState.acknowledged
written_state (some state) = state

abbrev state_of_row : Option OrderRow → Option OrderState
state_of_row none = none
state_of_row (some o) = some o.state

-- `datetime_utc` reads the text of a date; `None` where there is no date in it.
module _ (datetime_utc : Text → Option ℕ) where
  abbrev instant_of : Option Text → Option ℕ
  instant_of none = none
  instant_of (some t) = datetime_utc t

  -- `reported_at`.
  unfoldable pub reported_at : StatusReport → Option ℕ
  reported_at p = instant_of p.created_at

  -- `_move`: whether the order moved. The first row that the `UPDATE` gives back is the only one.
  unfoldable pub move :
      (connection_id id : Text) → StatusOutcome → StatusReport → ℕ → Store → Bool × Store
  unfolding same_state
  move connection_id id outcome p now s =
      let state = written_state outcome.state in
      let written = reported_at p in
      let revoked = revocable id state written s.orders in
      after_update connection_id id state (first (select_where (is_moved id revoked) s.orders)) s
        (record s {
          orders =
              update_where (is_moved id revoked) (reported_values state outcome written now)
                s.orders;
        })

  -- `_ignored`, with the state that refused the move.
  abbrev ignored : (connection_id id : Text) → Store → Store
  ignored connection_id id s =
      noted Action.payment_status_ignored true (some id) (some connection_id) none
        (state_of_row (find_order id s.orders)) s

  abbrev pub or_ignored : (connection_id id : Text) → Bool × Store → Store
  or_ignored connection_id id (true, s) = s
  or_ignored connection_id id (false, s) = ignored connection_id id s

  -- `reconcile`: the four endings.
  unfoldable pub reconcile :
      (connection_id : Text)
      → (order_id : Option Text) → StatusReport
      → ℕ
      → Store
      → StatusOutcome × Store
  reconcile connection_id none p now s =
      (resolve p, noted Action.payment_status_unmatched true none (some connection_id) none none s)
  reconcile connection_id (some id) p now s = (
    resolve p,
    if is_some (resolve p).state
        then or_ignored connection_id id (move connection_id id (resolve p) p now s)
        else noted Action.payment_status_reported true (some id) (some connection_id) none none s,
  )

  -- `replay`: a report that was stored earlier; only a move writes anything.
  unfoldable pub replay_report :
      (connection_id : Text) → (order_id : Option Text) → StatusReport → ℕ → Store → Bool × Store
  replay_report connection_id none p now s = (false, s)
  replay_report connection_id (some id) p now s =
      if is_some (resolve p).state then move connection_id id (resolve p) p now s else (false, s)
