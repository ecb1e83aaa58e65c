-- ===== src/Examples/OrderQueue.antt =====
-- Orders, workers and the bank at concrete inputs: painfree/queue.py, painfree/worker.py.
use mathlib.Core.List.{Memᴰ}
use painfree_ebics_middlewar.Prelude.{
  ℕ, ◌+◌, ◌≤◌, Option, Text, text, text_eq, text_eq_iff, true, false, ◌≡◌, inr, ◌≢◌, refl, List, [],
  ◌∷◌, none, some, select_where, update_where, arith,
}
use painfree_ebics_middlewar.Ebics.Errors.{Refusal}
use painfree_ebics_middlewar.Schemes.Profiles.{
  PaymentScheme, SchemeProfiles, default_normal, default_instant,
}
use painfree_ebics_middlewar.Orders.Rows.{
  OrderState, same_state, OrderRow, AttemptState, same_attempt_state, AttemptRow, Store, find_order,
}
use painfree_ebics_middlewar.Orders.Queue.{
  seconds, backoff, is_candidate, candidate, taken_by, claimed_row, ClaimedOrder, claim_lease,
  claim,
}
use painfree_ebics_middlewar.Orders.Queue.Claim.{Took, claim-Took}
use painfree_ebics_middlewar.Orders.Queue.Outcomes.{retry_later}
use painfree_ebics_middlewar.Orders.Queue.Fallback.{fall_back}
use painfree_ebics_middlewar.Orders.Queue.Outcomes.{recorded, update_order}
use painfree_ebics_middlewar.Orders.Replay.{is_replayable, replayed_values, replay}
use painfree_ebics_middlewar.Orders.Worker.{bank_refused, transport_failed, deliver}
use painfree_ebics_middlewar.Orders.History.{
  Event, claims, delivers, replays, reports, perform, run,
}
use painfree_ebics_middlewar.Reconcile.Codes.{status_code}
use painfree_ebics_middlewar.Reconcile.Reports.{StatusReport}
use painfree_ebics_middlewar.Reconcile.Decide.{
  resolve, decisive, unanimous, tally, reason, unknown_statuses, short_reason, text_lt, add_sorted,
}
use painfree_ebics_middlewar.Reconcile.Apply.{
  reconcile, move, revocable, reported_at, movable_from, reconciles_from, reported_values,
}
use painfree_ebics_middlewar.Orders.History.WellFormed.{WellFormed}
use painfree_ebics_middlewar.Orders.History.Reachable.{run-WellFormed}
use painfree_ebics_middlewar.Orders.History.Exclusive.{claim_exclusive}
use painfree_ebics_middlewar.Orders.History.Recorded.{Recorded, deliver-Recorded}
use painfree_ebics_middlewar.Orders.History.Retries.{
  IsDeferred, retry_later_due, retry_later_final, claims_never_end,
}
use painfree_ebics_middlewar.Orders.History.Justified.{Justified, fall_back-Justified}

-- An order for instant_or_normal, as it was accepted, and the attempts that were built for it.
abbrev pub queued : OrderRow
queued = record {
  seq = 7;
  order_id = text "ord_1";
  connection_id = text "bank";
  idempotency_key = text "key-0001";
  request_fingerprint = text "f";
  state = OrderState.accepted;
  msg_id = text "M1";
  payment_information_id = text "P1";
  document = text "<a/>";
  bank_order_id = none;
  return_code = none;
  report_text = none;
  refused_request = none;
  refused_request_errors = none;
  transaction_id = none;
  worker_id = none;
  claimed_at = none;
  attempts = 0;
  next_attempt_at = none;
  last_error = none;
  bank_status = none;
  status_reason_code = none;
  status_reason_text = none;
  status_reported_at = none;
  requested_scheme = PaymentScheme.instant_or_normal;
  scheme = PaymentScheme.instant;
  scheme_reason = none;
  updated_at = 0;
}

abbrev pub first_attempt : AttemptRow
first_attempt = record {
  attempt_id = text "att_1";
  order_id = text "ord_1";
  attempt_no = 1;
  scheme = PaymentScheme.instant;
  state = AttemptState.live;
  msg_id = text "M1";
  payment_information_id = text "P1";
  document = text "<a/>";
  reason = none;
  return_code = none;
  report_text = none;
  updated_at = 0;
}

abbrev pub reserve_attempt : AttemptRow
reserve_attempt = record first_attempt {
  attempt_id = text "att_2";
  attempt_no = 2;
  scheme = PaymentScheme.normal;
  state = AttemptState.planned;
  msg_id = text "M2";
  document = text "<b/>";
}

abbrev pub database : Store
database = record {
  orders = queued ∷ [];
  attempts = first_attempt ∷ reserve_attempt ∷ [];
  audit = [];
}

pub text_apart : (a b : Text) → text_eq a b ≡ false → a ≢ b
text_apart a b no_match e = let yes_match = (text_eq_iff a b).1 e in cc

pub database-WellFormed : WellFormed database
unfolding select_where same_attempt_state text_eq
database-WellFormed = record {
  distinct_seq = (tt, tt);
  distinct_order = (tt, tt);
  distinct_attempt = ((text_apart (text "att_2") (text "att_1") refl, tt), (tt, tt));
  held = ((refl, refl), tt);
  live = ((first_attempt, refl, (refl, refl, refl, refl)), tt);
}

abbrev pub profiles : SchemeProfiles
profiles = record {
  default = PaymentScheme.normal;
  normal_profile = default_normal;
  instant_profile = some default_instant;
  instant_refusal_codes = text "091112" ∷ [];
}

abbrev pub refusal : Refusal
refusal = record {
  return_code = text "091112";
  name = none;
  report_text = some (text "no instant");
  retryable = false;
  terminal = true;
}

-- The order as the first worker has it.
abbrev pub taken : ClaimedOrder
taken = claimed_row (text "w1") (seconds 10) (taken_by (text "w1") (seconds 10) queued)

claim-Took_example :
    Took
      (text "w1")
      (seconds 10)
      claim_lease
      database
      (claim (text "w1") (seconds 10) claim_lease database)
claim-Took_example =
    claim-Took (text "w1") (seconds 10) claim_lease database database-WellFormed.distinct_seq

-- A status report that rejects the whole message, without a date.
abbrev pub rejection : StatusReport
rejection = record {
  created_at = none;
  message_identification = some (text "M1");
  status = some (text "RJCT");
  reasons = [];
  payments = [];
}

abbrev no_date : Text → Option ℕ
no_date t = none

-- The order as an operator saw it after it had failed.
abbrev given_up : OrderRow
given_up = record queued { state = OrderState.failed; attempts = 5 }

-- A claim, the refusal of instant, the claim of the reserve, a lost connection, a replay
-- and a status report.
abbrev history : List Event
history =
    claims (text "w1") (seconds 10)
    ∷ delivers profiles taken (bank_refused refusal none) (seconds 20)
    ∷ claims (text "w2") (seconds 30)
    ∷ delivers profiles taken (transport_failed (text "reset")) (seconds 40)
    ∷ replays (text "ord_1") (some given_up) (seconds 50)
    ∷ reports (text "bank") (some (text "ord_1")) rejection (seconds 55)
    ∷ []

run-WellFormed_example : WellFormed (run (λ d. []) no_date history database)
run-WellFormed_example = run-WellFormed (λ d. []) no_date history database database-WellFormed

deliver-Recorded_example :
    Recorded queued
      (deliver (λ d. []) profiles (seconds 20) taken (bank_refused refusal none) database)
unfolding taken_by
deliver-Recorded_example =
    deliver-Recorded taken queued database database-WellFormed.distinct_order (Memᴰ.head refl) refl
      (λ d. []) profiles (seconds 20) (bank_refused refusal none)

retry_later_due_example :
    IsDeferred queued
      (seconds 20 + backoff 2)
      (retry_later (text "ord_1") 2 (text "reset") none none (seconds 20) database).1
    × (seconds 30 ≤ backoff 2)
    × (backoff 2 ≤ seconds 1800)
retry_later_due_example =
    retry_later_due queued database (Memᴰ.head refl) (text "ord_1") refl 2 (text "reset") none none
      (seconds 20) (omega arith)

retry_later_final_example :
    (row : OrderRow) × Memᴰ row
      (retry_later (text "ord_1") 5 (text "reset") none none (seconds 20) database).1.orders
    × (row.order_id ≡ text "ord_1")
    × (row.state ≡ OrderState.failed)
    × ((later expired : ℕ) → is_candidate later expired row ≡ false)
retry_later_final_example =
    retry_later_final queued database (Memᴰ.head refl) (text "ord_1") refl 5 (text "reset") none
      none (seconds 20) (omega arith)

-- The order after another worker has delivered it.
abbrev delivered : OrderRow
delivered = record queued {
  state = OrderState.submitted;
  bank_order_id = some (text "N001");
  attempts = 2;
}

abbrev held_order : OrderRow
held_order = record queued {
  state = OrderState.submitting;
  worker_id = some (text "w1");
  claimed_at = some (seconds 10);
  attempts = 1;
}

abbrev over_order : OrderRow
over_order = record queued { seq = 3; order_id = text "ord_0"; state = OrderState.submitted }

fall_back-Justified_example :
    Justified taken profiles
      (some (text "091112"))
      database
      (fall_back taken profiles (some (text "091112")) none (seconds 20) database)
fall_back-Justified_example =
    fall_back-Justified taken profiles none (seconds 20) database (some (text "091112"))

claims_never_end_example :
    (row : OrderRow) × ((run
        (λ d. [])
        no_date
        (claims (text "w1") (seconds 10 + claim_lease + 1)
          ∷ claims (text "w1") (seconds 10 + claim_lease + 1 + claim_lease + 1)
          ∷ [])
        (record database { orders = held_order ∷ over_order ∷ [] })).orders
      ≡ row ∷ over_order ∷ [])
    × (row.order_id ≡ text "ord_1")
    × (row.state ≡ OrderState.submitting)
    × (row.attempts ≡ 1 + 2)
unfolding is_candidate same_state
claims_never_end_example =
    claims_never_end (λ d. []) no_date (text "w1") 2 (seconds 10) held_order (over_order ∷ [])
      database refl refl ((refl, (λ now expired. refl)), tt)

-- A replay that saw the failed order before another replay and a claim: the claim is cleared, and a second
-- worker takes the order within the lease of the first.
taken_twice :
    (claim (text "w2") (seconds 30) claim_lease (
      run
        (λ d. [])
        no_date
        (replays (text "ord_1") (some given_up) (seconds 20) ∷ [])
        (claim (text "w1") (seconds 10) claim_lease database).1)).0
    ≡ some (
        claimed_row
          (text "w2")
          (seconds 30)
          (taken_by (text "w2") (seconds 30) (replayed_values (seconds 20) taken.order)))
unfolding claim candidate is_candidate same_state select_where update_where taken_by perform replay
    is_replayable text_eq replayed_values recorded update_order
taken_twice = refl

-- A second order in the queue.
abbrev other_order : OrderRow
other_order = record queued {
  seq = 9;
  order_id = text "ord_2";
  idempotency_key = text "key-0002";
  msg_id = text "M9";
}

abbrev other_attempt : AttemptRow
other_attempt = record first_attempt {
  attempt_id = text "att_3";
  order_id = text "ord_2";
  msg_id = text "M9";
}

abbrev busy : Store
busy = record {
  orders = queued ∷ other_order ∷ [];
  attempts = first_attempt ∷ other_attempt ∷ [];
  audit = [];
}

busy-WellFormed : WellFormed busy
unfolding select_where same_attempt_state text_eq
busy-WellFormed = record {
  distinct_seq = ((λ e. absurd (omega arith), tt), (tt, tt));
  distinct_order = ((text_apart (text "ord_2") (text "ord_1") refl, tt), (tt, tt));
  distinct_attempt = ((text_apart (text "att_3") (text "att_1") refl, tt), (tt, tt));
  held = ((refl, refl), ((refl, refl), tt));
  live = (
    (first_attempt, refl, (refl, refl, refl, refl)),
    ((other_attempt, refl, (refl, refl, refl, refl)), tt),
  );
}

busy-claim : (claim (text "w1") (seconds 10) claim_lease busy).0 ≡ some taken
unfolding claim candidate is_candidate same_state select_where taken_by
busy-claim = refl

-- What the second worker gets, 15 minutes later.
abbrev second_taken : ClaimedOrder
second_taken =
    claimed_row (text "w2") (seconds 910) (taken_by (text "w2") (seconds 910) other_order)

-- The first order is reported rejected while its worker has it, and an operator replays it.
abbrev meanwhile : List Event
meanwhile =
    reports (text "bank") (some (text "ord_1")) rejection (seconds 55)
    ∷ replays (text "ord_1") (some taken.order) (seconds 60)
    ∷ []

second-claim :
    (claim
      (text "w2")
      (seconds 910)
      claim_lease
      (run (λ d. []) no_date meanwhile (claim (text "w1") (seconds 10) claim_lease busy).1)).0
    ≡ some second_taken
unfolding claim candidate is_candidate same_state select_where update_where taken_by perform replay
    find_order is_replayable text_eq reconcile resolve decisive status_code move revocable
    reported_at movable_from reconciles_from reported_values unanimous tally reason unknown_statuses
    short_reason text_lt add_sorted
second-claim = refl

claim_exclusive_example : text "ord_2" ≢ text "ord_1"
unfolding taken_by is_replayable same_state
claim_exclusive_example =
    claim_exclusive (λ d. []) no_date (text "w1") (text "w2") (seconds 10) (seconds 910) meanwhile
      busy taken second_taken busy-WellFormed busy-claim (tt, (inr refl, tt)) (omega arith)
      second-claim
