-- ===== src/Webhooks/OneOnWire.antt =====
-- In every history, a subscription has one delivery under way at most, and nothing overtakes.
use mathlib.Core.List.{Memᴰ}
use painfree_ebics_middlewar.Prelude.{
  ℕ, ltb, leb, ltb→lt, Text, ◌&&◌, Bool-cases, is_none, Option, Distinct-only, All-Memᴰ, ◌≡◌, refl,
  sym, inl, inr, arith,
}
use painfree_ebics_middlewar.Webhooks.Rows.{DeliveryState, DeliveryRow, Hooks}
use painfree_ebics_middlewar.Webhooks.Finish.{
  settle_delivery, delivered_values, failed_values, retried_values, delivery_backoff,
  max_deliveries, short_error, delivered, retry_delivery, Posted, is_success, status_of, reason_of,
  finish_delivery,
}
use painfree_ebics_middlewar.Webhooks.Tables.{IsOver, InOrder}
use painfree_ebics_middlewar.Webhooks.Changes.{claim_delivery-InOrder, settle_delivery-InOrder}
use painfree_ebics_middlewar.Webhooks.Parking.{
  subscription_succeeded-InOrder, subscription_failed-InOrder, set_enabled-InOrder, resume-InOrder,
}
use painfree_ebics_middlewar.Webhooks.Added.{fan_out-InOrder, enqueue_ping-InOrder}
use painfree_ebics_middlewar.Webhooks.Steps.{
  StillHeld, Step, claims, finishes, owes, pauses, resumes, pings, Steps, here, then,
}

delivering-over : (state : DeliveryState) → state ≡ DeliveryState.delivering → IsOver state → ⊥
delivering-over state e (inl f) = cc
delivering-over state e (inr f) = cc

delivered-InOrder :
    (claimed : DeliveryRow) (status now : ℕ) (s : Hooks)
    → InOrder s
    → InOrder (delivered claimed status now s).1
unfolding delivered delivered_values
delivered-InOrder claimed status now s w =
    subscription_succeeded-InOrder claimed.subscription_id now
      (settle_delivery claimed.delivery_id (delivered_values status now) s) status
      (settle_delivery-InOrder claimed.delivery_id (delivered_values status now)
        DeliveryState.delivered s (λ x. refl) (λ x. refl) (λ x. refl) (λ e. cc) (λ e. cc)
        (λ x m e over. inl refl) w)

retry_delivery-InOrder :
    (claimed : DeliveryRow) (status : Option ℕ) (reason : Text) (now : ℕ) (s : Hooks)
    → StillHeld claimed s
    → InOrder s
    → InOrder (retry_delivery claimed status reason now s).1
unfolding retry_delivery failed_values retried_values
retry_delivery-InOrder claimed status reason now s held w =
    elim (Bool-cases (leb max_deliveries claimed.attempts)) [
      | inl e ↦ rw e (
          subscription_failed-InOrder claimed.subscription_id status (short_error reason) now _ (
            settle_delivery-InOrder claimed.delivery_id (failed_values status reason now)
              DeliveryState.failed s (λ x. refl) (λ x. refl) (λ x. refl) (λ e. cc) (λ e. cc)
              (λ x m f over. inr refl) w))
      | inr e ↦ rw e (
          settle_delivery-InOrder claimed.delivery_id
            (retried_values (delivery_backoff claimed.attempts) status reason now)
            DeliveryState.pending s (λ x. refl) (λ x. refl) (λ x. refl) (λ e. cc) (λ e. cc)
            (λ x m f over. absurd (delivering-over x.state (held x m f) over)) w)
    ]

finish_delivery-InOrder :
    (said : ℕ → Text) (claimed : DeliveryRow) (answer : Posted) (now : ℕ) (s : Hooks)
    → StillHeld claimed s
    → InOrder s
    → InOrder (finish_delivery said claimed answer now s).1
unfolding finish_delivery
finish_delivery-InOrder said claimed answer now s held w =
    elim (Bool-cases (is_none answer.error && is_success answer.status)) [
      | inl e ↦ rw e (delivered-InOrder claimed (status_of answer.status) now s w)
      | inr e ↦ rw e (
          retry_delivery-InOrder claimed answer.status (reason_of said answer.status answer.error)
            now s held w)
    ]

Step-InOrder : {s t : Hooks} → Step s t → InOrder s → InOrder t
Step-InOrder (claims worker now lease s) w = claim_delivery-InOrder worker now lease s w
Step-InOrder (finishes said claimed answer now s held) w =
    finish_delivery-InOrder said claimed answer now s held w
Step-InOrder (owes ids e now s t done) w = fan_out-InOrder ids e now s t done w
Step-InOrder (pauses id enabled now s) w = set_enabled-InOrder id now s enabled w
Step-InOrder (resumes id now s) w = resume-InOrder id now s w
Step-InOrder (pings event_id delivery_id body id now s) w =
    enqueue_ping-InOrder event_id delivery_id body id now s w

pub steps-InOrder : {s t : Hooks} → Steps s t → InOrder s → InOrder t
steps-InOrder (here s) w = w
steps-InOrder (then before last) w = Step-InOrder last (steps-InOrder before w)

-- Two deliveries of a subscription that are under way are the same one.
abbrev pub OneOnWire : Hooks → Type 0
OneOnWire s =
    (d x : DeliveryRow)
    → Memᴰ d s.deliveries
    → Memᴰ x s.deliveries
    → d.state ≡ DeliveryState.delivering
    → x.state ≡ DeliveryState.delivering
    → x.subscription_id ≡ d.subscription_id
    → x ≡ d

InOrder-OneOnWire : (s : Hooks) → InOrder s → OneOnWire s
InOrder-OneOnWire s w d x md mx sends_d sends_x same = elim (Bool-cases (ltb x.seq d.seq)) [
  | inl e ↦
      absurd
        (delivering-over x.state sends_x (w.on_wire d x md mx sends_d same (ltb→lt x.seq d.seq e)))
  | inr e ↦ elim (Bool-cases (ltb d.seq x.seq)) [
    | inl f ↦ absurd (
        delivering-over d.state sends_d
          (w.on_wire x d mx md sends_x (sym same) (ltb→lt d.seq x.seq f)))
    | inr f ↦
        All-Memᴰ (λ y. y.seq ≡ d.seq → y ≡ d) s.deliveries
          (Distinct-only (λ y. y.seq) s.deliveries w.distinct_seq md) mx (ground arith)
  ]
]

-- From tables that are in order, whatever dispatchers claim, endpoints answer, leases lapse, events are
-- fanned out and operators pause, resume and test, as long as a dispatcher finishes only a delivery that
-- is still under way: the tables stay in order. A subscription never has two deliveries under way;
-- everything in front of one that is under way is delivered or given up; and a delivery is parked only
-- while its subscription is.
pub steps-OneOnWire : {s t : Hooks} → Steps s t → InOrder s → OneOnWire t × InOrder t
steps-OneOnWire {s} {t} history w =
    let after = steps-InOrder history w in (InOrder-OneOnWire t after, after)
