-- ===== src/Webhooks/Dispatch.antt =====
-- `WebhookDispatcher` of painfree/dispatcher.py: the claim of an owed event.
use painfree_ebics_middlewar.Prelude.{
  ℕ, ◌+◌, ◌-◌, ◌==◌, min, Text, text_eq, Bool, true, false, not, ◌&&◌, ◌||◌, any, leb, ltb, is_none,
  Option, none, some, List, [], ◌∷◌, first, update_where, select_where, if◌then◌else◌,
}
use painfree_ebics_middlewar.Orders.Queue.{seconds}
use painfree_ebics_middlewar.Webhooks.Rows.{
  DeliveryState, same_delivery_state, DeliveryRow, SubscriptionRow, Hooks, is_subscription,
}

-- `CLAIM_LEASE`.
abbrev pub delivery_lease : ℕ
delivery_lease = seconds 300

-- `state.in_((PENDING, DELIVERING))`.
unfoldable pub is_owed : DeliveryState → Bool
unfolding same_delivery_state
is_owed state =
    same_delivery_state state DeliveryState.pending
    || same_delivery_state state DeliveryState.delivering

-- `live`.
abbrev pub is_live : List SubscriptionRow → DeliveryRow → Bool
is_live subscriptions d =
    any (λ u. is_subscription d.subscription_id u && u.enabled && is_none u.parked_at) subscriptions

-- `overtaking`: an earlier row of the subscription that is still owed.
abbrev pub is_ahead : DeliveryRow → DeliveryRow → Bool
is_ahead d e = text_eq e.subscription_id d.subscription_id && ltb e.seq d.seq && is_owed e.state

abbrev is_due : Option ℕ → ℕ → Bool
is_due none now = true
is_due (some t) now = leb t now

abbrev has_lapsed : Option ℕ → ℕ → Bool
has_lapsed none expired = false
has_lapsed (some t) expired = ltb t expired

unfoldable pub is_deliverable : (now expired : ℕ) → DeliveryRow → Bool
unfolding same_delivery_state
is_deliverable now expired d =
    (same_delivery_state d.state DeliveryState.pending && is_due d.next_attempt_at now)
    || (same_delivery_state d.state DeliveryState.delivering && has_lapsed d.claimed_at expired)

abbrev pub can_claim : (now expired : ℕ) → Hooks → DeliveryRow → Bool
can_claim now expired s d =
    is_deliverable now expired d && is_live s.subscriptions d && not (any (is_ahead d) s.deliveries)

abbrev pub lesser : ℕ → Option ℕ → ℕ
lesser a none = a
lesser a (some b) = min a b

-- `_candidate`: the least `seq` of a row that can be claimed.
unfoldable pub least_seq : (DeliveryRow → Bool) → List DeliveryRow → Option ℕ
least_seq can [] = none
least_seq can (d ∷ ds) =
    let rest = least_seq can ds in if can d then some (lesser d.seq rest) else rest

abbrev pub has_number : ℕ → DeliveryRow → Bool
has_number n d = d.seq == n

-- The values that a claim writes.
unfoldable pub claimed_values : Text → ℕ → DeliveryRow → DeliveryRow
claimed_values worker now d = record d {
  state = DeliveryState.delivering;
  worker_id = some worker;
  claimed_at = some now;
  attempts = d.attempts + 1;
  updated_at = now;
}

-- The row that is given back is what `ClaimedDelivery` is made of.
abbrev claimed_one : Text → ℕ → Option DeliveryRow → Option DeliveryRow
claimed_one worker now none = none
claimed_one worker now (some d) = some (claimed_values worker now d)

abbrev pub take_numbered : Text → ℕ → Hooks → Option ℕ → Option DeliveryRow × Hooks
take_numbered worker now s none = (none, s)
take_numbered worker now s (some n) = (
  claimed_one worker now (first (select_where (has_number n) s.deliveries)),
  record s { deliveries = update_where (has_number n) (claimed_values worker now) s.deliveries },
)

unfoldable pub claim_delivery :
    (worker : Text) → (now lease : ℕ) → Hooks → Option DeliveryRow × Hooks
claim_delivery worker now lease s =
    take_numbered worker now s (least_seq (can_claim now (now - lease) s) s.deliveries)
