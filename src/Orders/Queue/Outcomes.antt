-- ===== src/Orders/Queue/Outcomes.antt =====
-- How an upload went: `opened`, `submitted`, `refused`, `retry_later` of painfree/queue.py.
use painfree_ebics_middlewar.Prelude.{
  ℕ, ◌+◌, Text, is_empty, Bool, true, false, leb, Option, none, some, List, [], ◌∷◌, ◌++◌,
  update_where, if◌then◌else◌,
}
use painfree_ebics_middlewar.Orders.Rows.{
  OrderState, OrderRow, AttemptState, AttemptRow, Action, AuditEvent, Store, is_order, find_order,
  is_attempt,
}
use painfree_ebics_middlewar.Orders.Queue.{max_attempts, backoff, short}

-- `_update`.
unfoldable pub update_order : Text → (OrderRow → OrderRow) → Store → Store
update_order id change s = record s { orders = update_where (is_order id) change s.orders }

-- The values of `_update`, with the `updated_at` that it fills in.
unfoldable pub opened_values : Option Text → Option Text → ℕ → OrderRow → OrderRow
opened_values transaction_id bank_order_id now o = record o {
  transaction_id = transaction_id;
  bank_order_id = elim bank_order_id [
    | none ↦ o.bank_order_id
    | some b ↦ if is_empty b then o.bank_order_id else some b
  ];
  updated_at = now;
}

unfoldable pub opened :
    (order_id : Text) → (transaction_id bank_order_id : Option Text) → (now : ℕ) → Store → Store
opened id transaction_id bank_order_id now s =
    update_order id (opened_values transaction_id bank_order_id now) s

-- `_correlation_of`, and the entry that it labels.
abbrev audit_of : Action → Bool → Text → Option OrderState → Option OrderRow → AuditEvent
audit_of action success id state none = record {
  action = action;
  success = success;
  order_id = some id;
  connection_id = none;
  idempotency_key = none;
  order_state = state;
}
audit_of action success id state (some o) = record {
  action = action;
  success = success;
  order_id = some id;
  connection_id = some o.connection_id;
  idempotency_key = some o.idempotency_key;
  order_state = state;
}

unfoldable pub recorded : Action → Bool → Text → Option OrderState → Store → Store
recorded action success id state s = record s {
  audit = s.audit ++ (audit_of action success id state (find_order id s.orders) ∷ []);
}

-- The claim is cleared in the same statement as the state.
unfoldable pub settled_values : OrderState → ℕ → OrderRow → OrderRow
settled_values state now o = record o {
  state = state;
  worker_id = none;
  claimed_at = none;
  next_attempt_at = none;
  updated_at = now;
}

-- The bank's answer, on the attempt that provoked it.
unfoldable pub answered : Option Text → Option Text → ℕ → AttemptRow → AttemptRow
answered return_code report_text now a = record a {
  return_code = return_code;
  report_text = report_text;
  updated_at = now;
}

unfoldable pub answer_live : Text → Option Text → Option Text → ℕ → Store → Store
answer_live id return_code report_text now s = record s {
  attempts =
      update_where (is_attempt id AttemptState.live) (answered return_code report_text now)
        s.attempts;
}

-- `_settle`: `values` are the further columns; each caller gives the bank's answer among them.
unfoldable pub settle :
    Text
    → OrderState
    → Action
    → Bool
    → (return_code report_text : Option Text) → (values : OrderRow → OrderRow) → ℕ
    → Store
    → Store
settle id state action success return_code report_text values now s =
    let after =
      answer_live id return_code report_text now
        (update_order id (λ o. settled_values state now (values o)) s) in
    recorded action success id (some state) after

unfoldable pub submitted_values :
    (bank_order_id return_code report_text : Option Text) → OrderRow → OrderRow
submitted_values bank_order_id return_code report_text o = record o {
  bank_order_id = bank_order_id;
  return_code = return_code;
  report_text = report_text;
  last_error = none;
}

unfoldable pub submitted :
    Text → (bank_order_id return_code report_text : Option Text) → ℕ → Store → OrderState × Store
submitted id bank_order_id return_code report_text now s = (
  OrderState.submitted,
  settle id OrderState.submitted Action.payment_submitted true return_code report_text
      (submitted_values bank_order_id return_code report_text) now s,
)

unfoldable pub refused_values :
    (return_code report_text refused_request : Option Text)
    → Option (List Text)
    → OrderRow
    → OrderRow
refused_values return_code report_text request errors o = record o {
  return_code = return_code;
  report_text = report_text;
  last_error = none;
  refused_request = request;
  refused_request_errors = errors;
}

abbrev pub checked_request : (Text → List Text) → Option Text → Option (List Text)
checked_request schema_failures none = none
checked_request schema_failures (some request) = some (schema_failures request)

-- `schema_failures` checks a document against the H005 schemas.
unfoldable pub refused :
    (schema_failures : Text → List Text)
    → Text
    → (return_code report_text request : Option Text) → ℕ
    → Store
    → OrderState × Store
refused schema_failures id return_code report_text request now s = (
  OrderState.rejected,
  settle id OrderState.rejected Action.payment_rejected false return_code report_text
      (refused_values return_code report_text request (checked_request schema_failures request)) now
      s,
)

unfoldable pub failed_values : (return_code report_text : Option Text) → Text → OrderRow → OrderRow
failed_values return_code report_text reason o = record o {
  return_code = return_code;
  report_text = report_text;
  last_error = some (short reason);
}

-- The values that put an order back, with a wait in front of it.
unfoldable pub deferred_values :
    ℕ → Text → (return_code report_text : Option Text) → ℕ → OrderRow → OrderRow
deferred_values wait reason return_code report_text now o = record o {
  state = OrderState.accepted;
  worker_id = none;
  claimed_at = none;
  next_attempt_at = some (now + wait);
  last_error = some (short reason);
  return_code = return_code;
  report_text = report_text;
  updated_at = now;
}

unfoldable pub retry_later :
    Text
    → (attempts : ℕ) → (reason : Text) → (return_code report_text : Option Text) → ℕ
    → Store
    → OrderState × Store
retry_later id attempts reason return_code report_text now s =
    if leb max_attempts attempts
    then (
      OrderState.failed,
      settle id OrderState.failed Action.payment_failed false return_code report_text
          (failed_values return_code report_text reason) now s,
    )
    else (
      OrderState.accepted,
      update_order id (deferred_values (backoff attempts) reason return_code report_text now) s,
    )
