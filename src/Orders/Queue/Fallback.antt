-- ===== src/Orders/Queue/Fallback.antt =====
-- `OrderQueue.fall_back` of painfree/queue.py: the reserve attempt is promoted, or nothing happens.
use painfree_ebics_middlewar.Prelude.{
  ℕ, Text, text, text_eq, Bool, true, ◌&&◌, is_none, any, Option, none, some, List, ◌++◌,
  update_where, if◌then◌else◌,
}
use painfree_ebics_middlewar.Schemes.Profiles.{
  PaymentScheme, same_scheme, SchemeProfiles, refuses_instant,
}
use painfree_ebics_middlewar.Orders.Rows.{
  OrderState, same_state, OrderRow, AttemptState, same_attempt_state, AttemptRow, Action, Store,
  is_order, option_is, is_attempt, one,
}
use painfree_ebics_middlewar.Orders.Queue.{ClaimedOrder}
use painfree_ebics_middlewar.Orders.Queue.Outcomes.{recorded}

-- `Downgrade`.
pub record Downgrade : Type 0 where
  pub order_id : Text
  pub attempt : AttemptRow
  pub was : PaymentScheme
  pub now_sent : PaymentScheme
  pub return_code : Option Text
  pub report_text : Option Text
  pub reason : Text

-- The conditions that the database owns.
unfoldable pub can_promote : ClaimedOrder → OrderRow → Bool
unfolding same_state same_scheme
can_promote claimed o =
    is_order claimed.order.order_id o
    && same_state o.state OrderState.submitting
    && option_is o.worker_id claimed.worker_id
    && same_scheme o.scheme PaymentScheme.instant
    && is_none o.transaction_id
    && is_none o.bank_order_id

-- The reserve's message in the order's row; it gets five tries of its own.
unfoldable pub promoted_values :
    AttemptRow → Text → (return_code report_text : Option Text) → ℕ → OrderRow → OrderRow
promoted_values reserve reason return_code report_text now o = record o {
  state = OrderState.accepted;
  worker_id = none;
  claimed_at = none;
  next_attempt_at = none;
  transaction_id = none;
  attempts = 0;
  msg_id = reserve.msg_id;
  document = reserve.document;
  payment_information_id = reserve.payment_information_id;
  scheme = reserve.scheme;
  scheme_reason = some reason;
  return_code = return_code;
  report_text = report_text;
  last_error = none;
  updated_at = now;
}

unfoldable pub superseded_values :
    (return_code report_text : Option Text) → ℕ → AttemptRow → AttemptRow
superseded_values return_code report_text now a = record a {
  state = AttemptState.superseded;
  return_code = return_code;
  report_text = report_text;
  updated_at = now;
}

unfoldable pub live_values : Text → ℕ → AttemptRow → AttemptRow
live_values reason now a = record a {
  state = AttemptState.live;
  reason = some reason;
  updated_at = now;
}

unfoldable pub is_reserve : AttemptRow → AttemptRow → Bool
unfolding same_attempt_state
is_reserve reserve a =
    text_eq a.attempt_id reserve.attempt_id && same_attempt_state a.state AttemptState.planned

-- The attempts behind the promotion: the live one is superseded, then the reserve is live.
unfoldable pub promoted_attempts :
    Text
    → AttemptRow
    → Text
    → (return_code report_text : Option Text) → ℕ
    → List AttemptRow
    → List AttemptRow
promoted_attempts id reserve reason return_code report_text now attempts =
    update_where (is_reserve reserve) (live_values reason now) (
      update_where (is_attempt id AttemptState.live) (superseded_values return_code report_text now)
        attempts)

-- The reason of the new scheme: the constant, a colon and the code.
abbrev pub refusal_reason : Text → Text
refusal_reason code = text "bank_refused_instant:" ++ code

module _ (claimed : ClaimedOrder) (code : Text) (report_text : Option Text) (now : ℕ)
    (s : Store) where
  abbrev downgrade_to : AttemptRow → Downgrade
  downgrade_to reserve = record {
    order_id = claimed.order.order_id;
    attempt = reserve;
    was = PaymentScheme.instant;
    now_sent = reserve.scheme;
    return_code = some code;
    report_text = report_text;
    reason = refusal_reason code;
  }

  -- Both tables, in one transaction, and the entry in the audit log.
  unfoldable pub promoted : AttemptRow → Store
  promoted reserve =
      recorded Action.payment_scheme_downgraded true claimed.order.order_id none (record s {
        orders =
            update_where (can_promote claimed)
              (promoted_values reserve (refusal_reason code) (some code) report_text now) s.orders;
        attempts =
            promoted_attempts claimed.order.order_id reserve (refusal_reason code) (some code)
              report_text now s.attempts;
      })

  -- `rowcount != 1`; `order_id` is unique, so no more than one row is reached.
  abbrev pub promote : Option AttemptRow → Option Downgrade × Store
  promote none = (none, s)
  promote (some reserve) =
      if any (can_promote claimed) s.orders
      then (some (downgrade_to reserve), promoted reserve)
      else (none, s)

abbrev pub fall_back_from :
    ClaimedOrder → Option Text → (report_text : Option Text) → ℕ → Store → Option Downgrade × Store
fall_back_from claimed none report_text now s = (none, s)
fall_back_from claimed (some code) report_text now s =
    promote claimed code report_text now s
      (one claimed.order.order_id AttemptState.planned s.attempts)

unfoldable pub fall_back :
    ClaimedOrder
    → SchemeProfiles
    → (return_code report_text : Option Text) → ℕ
    → Store
    → Option Downgrade × Store
unfolding same_scheme
fall_back claimed profiles return_code report_text now s =
    let step = fall_back_from claimed return_code report_text now s in
    if refuses_instant profiles return_code
      && same_scheme claimed.order.scheme PaymentScheme.instant
    then step
    else (none, s)
