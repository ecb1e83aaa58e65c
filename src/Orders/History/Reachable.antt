-- ===== src/Orders/History/Reachable.antt =====
-- Every event of the history of the orders keeps the tables well-formed.
use painfree_ebics_middlewar.Prelude.{
  ℕ, ◌-◌, Text, Bool, true, false, Bool-cases, leb, Option, none, some, List, [], ◌∷◌, inl, inr,
}
use painfree_ebics_middlewar.Schemes.Profiles.{SchemeProfiles}
use painfree_ebics_middlewar.Orders.Rows.{OrderState, OrderRow, Action, Store, is_order}
use painfree_ebics_middlewar.Orders.Queue.{
  max_attempts, backoff, has_seq, taken_by, ClaimedOrder, claim_lease, candidate, take_candidate,
  claim,
}
use painfree_ebics_middlewar.Orders.Queue.Outcomes.{
  update_order, opened, settled_values, recorded, settle, submitted, refused, checked_request,
  failed_values, retry_later,
}
use painfree_ebics_middlewar.Orders.Queue.Fallback.{Downgrade, fall_back}
use painfree_ebics_middlewar.Orders.Replay.{is_replayable, replayed_values, replay_found, replay}
use painfree_ebics_middlewar.Orders.Worker.{
  UploadEnd, uploaded, bank_refused, transport_failed, upload_failed, after_fall_back, deliver,
}
use painfree_ebics_middlewar.Orders.History.{
  Event, claims, opens, delivers, replays, reports, perform, run,
}
use painfree_ebics_middlewar.Orders.History.Reported.{reconcile-WellFormed}
use painfree_ebics_middlewar.Orders.History.WellFormed.{WellFormed}
use painfree_ebics_middlewar.Orders.History.Changes.{
  IsSafe, taken_by-IsSafe, opened_values-IsSafe, submitted-IsSafe, refused-IsSafe, failed-IsSafe,
  deferred_values-IsSafe, replayed_values-IsSafe, safe-WellFormed, audit-WellFormed,
  answer_live-WellFormed,
}
use painfree_ebics_middlewar.Orders.History.Promoted.{fall_back-WellFormed}

update_order-WellFormed :
    (id : Text) (f : OrderRow → OrderRow) (s : Store)
    → IsSafe f
    → WellFormed s
    → WellFormed (update_order id f s)
unfolding update_order
update_order-WellFormed id f s safe w = safe-WellFormed s (is_order id) f safe w

pub claim-WellFormed :
    (worker : Text) (now lease : ℕ) (s : Store)
    → WellFormed s
    → WellFormed (claim worker now lease s).1
unfolding claim
claim-WellFormed worker now lease s w = take (candidate now (now - lease) s.orders)
  where
    take : (found : Option ℕ) → WellFormed (take_candidate worker now s found).1
    take none = w
    take (some n) =
        safe-WellFormed s (has_seq n) (taken_by worker now) (taken_by-IsSafe worker now) w

settle-WellFormed :
    (id : Text) (state : OrderState) (action : Action) (success : Bool)
    (code report_text : Option Text) (values : OrderRow → OrderRow) (now : ℕ) (s : Store)
    → IsSafe (λ o. settled_values state now (values o))
    → WellFormed s
    → WellFormed (settle id state action success code report_text values now s)
unfolding settle recorded
settle-WellFormed id state action success code report_text values now s safe w =
    audit-WellFormed _ _
      (answer_live-WellFormed id code report_text now _ (update_order-WellFormed id _ s safe w))

retry_later-WellFormed :
    (id : Text) (attempts : ℕ) (reason : Text) (code report_text : Option Text) (now : ℕ)
    (s : Store)
    → WellFormed s
    → WellFormed (retry_later id attempts reason code report_text now s).1
unfolding retry_later
retry_later-WellFormed id attempts reason code report_text now s w =
    elim (Bool-cases (leb max_attempts attempts)) [
      | inl e ↦ rw e (
          settle-WellFormed id OrderState.failed Action.payment_failed false code report_text
            (failed_values code report_text reason) now s
            (failed-IsSafe code report_text reason now) w)
      | inr e ↦ rw e (
          update_order-WellFormed id _ s
            (deferred_values-IsSafe (backoff attempts) reason code report_text now) w)
    ]

refused-WellFormed :
    (schema_failures : Text → List Text) (id : Text) (code report_text request : Option Text)
    (now : ℕ) (s : Store)
    → WellFormed s
    → WellFormed (refused schema_failures id code report_text request now s).1
unfolding refused
refused-WellFormed schema_failures id code report_text request now s w =
    settle-WellFormed id OrderState.rejected Action.payment_rejected false code report_text _ now s
      (refused-IsSafe code report_text request (checked_request schema_failures request) now) w

module _ (schema_failures : Text → List Text) where
  pub deliver-WellFormed :
      (profiles : SchemeProfiles) (now : ℕ) (claimed : ClaimedOrder) (end : UploadEnd) (s : Store)
      → WellFormed s
      → WellFormed (deliver schema_failures profiles now claimed end s).1
  unfolding deliver submitted
  deliver-WellFormed profiles now claimed (uploaded bank_order_id code report_text) s w =
      settle-WellFormed claimed.order.order_id OrderState.submitted Action.payment_submitted true
        code report_text _ now s (submitted-IsSafe bank_order_id code report_text now) w
  deliver-WellFormed profiles now claimed (bank_refused r request) s w =
      elim (Bool-cases r.retryable) [
        | inl e ↦
            rw e (retry_later-WellFormed claimed.order.order_id claimed.attempts _ _ _ now s w)
        | inr e ↦ rw e (
            after (fall_back claimed profiles (some r.return_code) r.report_text now s)
              (fall_back-WellFormed claimed profiles (some r.return_code) r.report_text now s w))
      ]
    where
      after :
          (o : Option Downgrade × Store)
          → WellFormed o.1
          → WellFormed (after_fall_back schema_failures profiles now claimed r request s o).1
      after (some downgrade, s') w' = w'
      after (none, s') w' =
          refused-WellFormed schema_failures claimed.order.order_id (some r.return_code)
            r.report_text request now s' w'
  deliver-WellFormed profiles now claimed (transport_failed reason) s w =
      retry_later-WellFormed claimed.order.order_id claimed.attempts reason none none now s w
  deliver-WellFormed profiles now claimed (upload_failed reason) s w =
      retry_later-WellFormed claimed.order.order_id claimed.attempts reason none none now s w

replay-WellFormed :
    (id : Text) (seen : Option OrderRow) (now : ℕ) (s : Store)
    → WellFormed s
    → WellFormed (replay id seen now s).1
unfolding replay recorded
replay-WellFormed id seen now s w = found seen
  where
    found : (o : Option OrderRow) → WellFormed (replay_found id now s o).1
    found none = w
    found (some o) = elim (Bool-cases (is_replayable o.state)) [
      | inl e ↦ rw e (
          audit-WellFormed (update_order id (replayed_values now) s) _
            (update_order-WellFormed id _ s (replayed_values-IsSafe now) w))
      | inr e ↦ rw e w
    ]

module _ (schema_failures : Text → List Text) (datetime_utc : Text → Option ℕ) where
  pub perform-WellFormed :
      (e : Event) (s : Store) → WellFormed s → WellFormed (perform schema_failures datetime_utc e s)
  unfolding perform opened
  perform-WellFormed (claims worker now) s w = claim-WellFormed worker now claim_lease s w
  perform-WellFormed (opens id transaction_id bank_order_id now) s w =
      update_order-WellFormed id _ s (opened_values-IsSafe transaction_id bank_order_id now) w
  perform-WellFormed (delivers profiles claimed end now) s w =
      deliver-WellFormed schema_failures profiles now claimed end s w
  perform-WellFormed (replays id seen now) s w = replay-WellFormed id seen now s w
  perform-WellFormed (reports connection_id order_id report now) s w =
      reconcile-WellFormed datetime_utc connection_id order_id report now s w

-- In every history that starts from well-formed tables, whatever the workers claim, the bank
-- answers and reports, the leases that lapse and the operator replays, however old the row is that a
-- replay was decided on, the tables stay well-formed: numbers and
-- ids are unique; an order is held by a worker, since an instant, exactly while it is `submitting`;
-- and every order has exactly one live attempt, whose message, document and scheme are the ones in
-- the order's row.
pub run-WellFormed :
    (schema_failures : Text → List Text) (datetime_utc : Text → Option ℕ) (events : List Event)
    (s : Store)
    → WellFormed s
    → WellFormed (run schema_failures datetime_utc events s)
run-WellFormed schema_failures datetime_utc [] s w = w
run-WellFormed schema_failures datetime_utc (e ∷ events) s w =
    run-WellFormed schema_failures datetime_utc events (perform schema_failures datetime_utc e s)
      (perform-WellFormed schema_failures datetime_utc e s w)
