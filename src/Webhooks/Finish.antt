-- ===== src/Webhooks/Finish.antt =====
-- `WebhookDispatcher` of painfree/dispatcher.py: how a delivery ended, and the parking of its endpoint.
use painfree_ebics_middlewar.Prelude.{
  ℕ, ◌+◌, ◌-◌, min, Text, text, text_eq, Bool, false, ◌&&◌, leb, ltb, is_none, Option, none, some,
  List, [], ◌∷◌, ◌++◌, length, take, first, update_where, select_where, if◌then◌else◌,
}
use painfree_ebics_middlewar.Orders.Queue.{seconds, wait_at, collapse}
use painfree_ebics_middlewar.Webhooks.Rows.{
  DeliveryState, same_delivery_state, DeliveryRow, SubscriptionRow, Hooks, is_delivery,
  is_subscription,
}

-- `MAX_ATTEMPTS`, `BACKOFF`, `PARK_AFTER`.
abbrev pub max_deliveries : ℕ
max_deliveries = 5

abbrev delivery_waits : List ℕ
delivery_waits = seconds 10 ∷ seconds 60 ∷ seconds 300 ∷ seconds 1800 ∷ []

abbrev pub park_after : ℕ
park_after = 3

-- `backoff`.
unfoldable pub delivery_backoff : ℕ → ℕ
delivery_backoff attempts = wait_at delivery_waits (min attempts (length delivery_waits) - 1)

-- `short` of painfree/webhooks.py.
unfoldable pub short_error : Text → Text
unfolding collapse
short_error reason =
    let r = collapse false false reason in
    if leb (length r) 512 then r else take 511 r ++ (8230 ∷ [])

-- `_settle`, with the columns that it clears.
unfoldable pub settle_delivery : Text → (DeliveryRow → DeliveryRow) → Hooks → Hooks
settle_delivery id values s = record s {
  deliveries =
      update_where (is_delivery id) (λ d. record (values d) { worker_id = none; claimed_at = none })
        s.deliveries;
}

unfoldable pub delivered_values : (status : ℕ) → (now : ℕ) → DeliveryRow → DeliveryRow
delivered_values status now d = record d {
  state = DeliveryState.delivered;
  delivered_at = some now;
  last_status = some status;
  last_error = none;
  updated_at = now;
}

unfoldable pub failed_values : (status : Option ℕ) → Text → ℕ → DeliveryRow → DeliveryRow
failed_values status reason now d = record d {
  state = DeliveryState.failed;
  last_status = status;
  last_error = some (short_error reason);
  updated_at = now;
}

unfoldable pub retried_values :
    (wait : ℕ) → (status : Option ℕ) → Text → ℕ → DeliveryRow → DeliveryRow
retried_values wait status reason now d = record d {
  state = DeliveryState.pending;
  next_attempt_at = some (now + wait);
  last_status = status;
  last_error = some (short_error reason);
  updated_at = now;
}

-- `_subscription_succeeded`.
unfoldable pub subscription_succeeded : Text → (status now : ℕ) → Hooks → Hooks
subscription_succeeded id status now s = record s {
  subscriptions =
      update_where (is_subscription id)
        (λ u. record u {
          consecutive_failures = 0;
          last_delivery_at = some now;
          last_status = some status;
          last_error = none;
          updated_at = now;
        })
        s.subscriptions;
}

abbrev pub count_failure : (status : Option ℕ) → Text → ℕ → SubscriptionRow → SubscriptionRow
count_failure status reason now u = record u {
  consecutive_failures = u.consecutive_failures + 1;
  last_delivery_at = some now;
  last_status = status;
  last_error = some reason;
  updated_at = now;
}

abbrev pub park : Text → ℕ → Hooks → Hooks
park id now s = record s {
  subscriptions =
      update_where (λ u. is_subscription id u && is_none u.parked_at)
        (λ u. record u { parked_at = some now; updated_at = now }) s.subscriptions;
  deliveries =
      update_where
        (λ d. text_eq d.subscription_id id && same_delivery_state d.state DeliveryState.pending)
        (λ d. record d {
          state = DeliveryState.parked;
          worker_id = none;
          claimed_at = none;
          updated_at = now;
        })
        s.deliveries;
}

abbrev pub failures_of : Option SubscriptionRow → ℕ
failures_of none = 0
failures_of (some u) = u.consecutive_failures

-- `_subscription_failed`; the subscription of a claimed delivery exists.
unfoldable pub subscription_failed : Text → (status : Option ℕ) → Text → ℕ → Hooks → Hooks
unfolding same_delivery_state
subscription_failed id status reason now s =
    let counted =
      update_where (is_subscription id) (count_failure status reason now) s.subscriptions in
    let t = record s { subscriptions = counted } in
    if ltb (failures_of (first (select_where (is_subscription id) counted))) park_after
    then t
    else park id now t

-- `_delivered`.
unfoldable pub delivered :
    (claimed : DeliveryRow) → (status now : ℕ) → Hooks → DeliveryState × Hooks
delivered claimed status now s = (
  DeliveryState.delivered,
  subscription_succeeded claimed.subscription_id status now
      (settle_delivery claimed.delivery_id (delivered_values status now) s),
)

-- `_retry_later`.
unfoldable pub retry_delivery :
    (claimed : DeliveryRow) → (status : Option ℕ) → Text → ℕ → Hooks → DeliveryState × Hooks
retry_delivery claimed status reason now s =
    if leb max_deliveries claimed.attempts
    then (
      DeliveryState.failed,
      subscription_failed claimed.subscription_id status (short_error reason) now
          (settle_delivery claimed.delivery_id (failed_values status reason now) s),
    )
    else (
      DeliveryState.pending,
      settle_delivery claimed.delivery_id
          (retried_values (delivery_backoff claimed.attempts) status reason now) s,
    )

-- What `post` gives: a status, or an error, or both.
pub record Posted : Type 0 where
  pub status : Option ℕ
  pub error : Option Text

abbrev pub is_success : Option ℕ → Bool
is_success none = false
is_success (some status) = leb 200 status && ltb status 300

abbrev pub status_of : Option ℕ → ℕ
status_of none = 0
status_of (some status) = status

abbrev pub reason_of : (said : ℕ → Text) → Option ℕ → Option Text → Text
reason_of said status (some error) = error
reason_of said none none = text "the endpoint answered HTTP None"
reason_of said (some status) none = text "the endpoint answered HTTP " ++ said status

-- `_deliver`, from the answer of the endpoint on; `said` writes a number in digits.
unfoldable pub finish_delivery :
    (said : ℕ → Text) → (claimed : DeliveryRow) → Posted → ℕ → Hooks → DeliveryState × Hooks
finish_delivery said claimed answer now s =
    if is_none answer.error && is_success answer.status
    then delivered claimed (status_of answer.status) now s
    else retry_delivery claimed answer.status (reason_of said answer.status answer.error) now s
