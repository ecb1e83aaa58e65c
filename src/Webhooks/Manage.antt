-- ===== src/Webhooks/Manage.antt =====
-- The operator's hand in the deliveries: pausing, resuming and a test event of painfree/webhooks.py, and
-- sending an event again of painfree/redelivery.py.
use painfree_ebics_middlewar.Prelude.{
  ℕ, suc, Text, text, text_eq, Bool, true, not, ◌&&◌, ◌||◌, is_some, Option, none, some, [], ◌∷◌,
  ◌++◌, first, update_where, select_where, if◌then◌else◌,
}
use painfree_ebics_middlewar.Webhooks.Rows.{
  DeliveryState, same_delivery_state, DeliveryRow, SubscriptionRow, Hooks, is_delivery,
  is_subscription, greatest_seq,
}
use painfree_ebics_middlewar.Webhooks.FanOut.{AuditedEvent, delivery_row}

-- What the operations raise.
pub data HookError : Type 0 where
  no_such_subscription no_such_delivery subscription_parked subscription_paused : HookError
  not_redeliverable : (state : DeliveryState) → HookError

pub data Done : Type 0 where
  done : Done
  refused : HookError → Done

abbrev pub update_subscription : Text → (SubscriptionRow → SubscriptionRow) → Hooks → Hooks
update_subscription id values s = record s {
  subscriptions = update_where (is_subscription id) values s.subscriptions;
}

abbrev pub found_subscription : Text → Hooks → Option SubscriptionRow
found_subscription id s = first (select_where (is_subscription id) s.subscriptions)

abbrev pub set_found : (enabled : Bool) → Text → ℕ → Hooks → Option SubscriptionRow → Done × Hooks
set_found enabled id now s none = (refused no_such_subscription, s)
set_found enabled id now s (some u) =
    (done, update_subscription id (λ u. record u { enabled = enabled; updated_at = now }) s)

-- `set_enabled`.
unfoldable pub set_enabled : Text → (enabled : Bool) → ℕ → Hooks → Done × Hooks
set_enabled id enabled now s = set_found enabled id now s (found_subscription id s)

-- `resume`.
unfoldable pub resume : Text → ℕ → Hooks → Hooks
unfolding same_delivery_state
resume id now s = record s {
  subscriptions =
      update_where (is_subscription id)
        (λ u. record u {
          parked_at = none;
          consecutive_failures = 0;
          enabled = true;
          updated_at = now;
        })
        s.subscriptions;
  deliveries =
      update_where
        (λ d. text_eq d.subscription_id id && same_delivery_state d.state DeliveryState.parked)
        (λ d. record d {
          state = DeliveryState.pending;
          next_attempt_at = some now;
          updated_at = now;
        })
        s.deliveries;
}

-- A subscription that the dispatcher serves: the check of `enqueue_ping` and `servable`.
abbrev pub servable : Option SubscriptionRow → Option HookError
servable none = some no_such_subscription
servable (some u) =
    if is_some u.parked_at
    then some subscription_parked
    else if not u.enabled
    then some subscription_paused
    else none

abbrev ping_event : (event_id body : Text) → SubscriptionRow → AuditedEvent
ping_event event_id body u = record {
  event_id = event_id;
  action = text "webhook.ping";
  connection_id = u.connection_id;
  order_id = none;
  body = body;
}

abbrev pub ping_found :
    (event_id delivery_id body : Text) → ℕ → Hooks → Option SubscriptionRow → Done × Hooks
ping_found event_id delivery_id body now s none = (refused no_such_subscription, s)
ping_found event_id delivery_id body now s (some u) =
    if is_some u.parked_at
    then (refused subscription_parked, s)
    else if not u.enabled
    then (refused subscription_paused, s)
    else (
      done,
      record s {
        deliveries =
            s.deliveries
            ++ (delivery_row (suc (greatest_seq s.deliveries)) delivery_id
                  (ping_event event_id body u) (text "webhook.ping") u now
                ∷ []);
      },
    )

-- `enqueue_ping`; the ids are fresh.
unfoldable pub enqueue_ping : (event_id delivery_id body : Text) → Text → ℕ → Hooks → Done × Hooks
enqueue_ping event_id delivery_id body id now s =
    ping_found event_id delivery_id body now s (found_subscription id s)

-- `REDELIVERABLE`.
unfoldable pub is_redeliverable : DeliveryState → Bool
unfolding same_delivery_state
is_redeliverable state =
    same_delivery_state state DeliveryState.delivered
    || same_delivery_state state DeliveryState.failed

-- `_requeue`.
unfoldable pub requeue : Text → ℕ → Hooks → Hooks
requeue id now s = record s {
  deliveries =
      update_where (λ d. is_delivery id d && is_redeliverable d.state)
        (λ d. record d {
          state = DeliveryState.pending;
          attempts = 0;
          next_attempt_at = some now;
          worker_id = none;
          claimed_at = none;
          delivered_at = none;
          updated_at = now;
        })
        s.deliveries;
}

abbrev redeliver_served : Text → ℕ → Hooks → DeliveryRow → Option HookError → Done × Hooks
redeliver_served id now s d (some e) = (refused e, s)
redeliver_served id now s d none =
    if is_redeliverable d.state
    then (done, requeue id now s)
    else (refused (not_redeliverable d.state), s)

abbrev redeliver_found : Text → ℕ → Hooks → Option DeliveryRow → Done × Hooks
redeliver_found id now s none = (refused no_such_delivery, s)
redeliver_found id now s (some d) =
    redeliver_served id now s d (servable (found_subscription d.subscription_id s))

-- `redeliver`.
unfoldable pub redeliver : (subscription_id delivery_id : Text) → ℕ → Hooks → Done × Hooks
redeliver subscription_id delivery_id now s = redeliver_found delivery_id now s (
    first (
      select_where (λ d. is_delivery delivery_id d && text_eq d.subscription_id subscription_id)
        s.deliveries))
