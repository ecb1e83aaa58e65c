-- ===== src/Orders/History/Changes.antt =====
-- What a statement of painfree/queue.py or painfree/orders.py does to tables that are well-formed.

use painfree_ebics_middlewar.Prelude.{
  ℕ, Text, Bool, Bool-cases, Option, List, map-All, All-update_where, update_where,
  Distinct-update_where, select_where-update_where, ◌≡◌, refl, inl, inr,
}
use painfree_ebics_middlewar.Orders.Rows.{
  OrderState, OrderRow, AttemptState, AttemptRow, AuditEvent, Store, is_attempt,
}
use painfree_ebics_middlewar.Orders.Queue.{taken_by}
use painfree_ebics_middlewar.Orders.Queue.Outcomes.{
  opened_values, settled_values, submitted_values, refused_values, failed_values, deferred_values,
  answered, answer_live,
}
use painfree_ebics_middlewar.Orders.Replay.{replayed_values}
use painfree_ebics_middlewar.Orders.History.WellFormed.{
  IsHeldRight, Carries, IsLiveRight, WellFormed,
}

-- A change of a row of an order that keeps its identity, and its message, and that sets the holder
-- together with the state.
pub record IsSafe (f : OrderRow → OrderRow) : Type 0 where
  pub keeps_seq : (o : OrderRow) → (f o).seq ≡ o.seq
  pub keeps_order_id : (o : OrderRow) → (f o).order_id ≡ o.order_id
  pub keeps_message : (o : OrderRow) (a : AttemptRow) → Carries o a → Carries (f o) a
  pub keeps_held : (o : OrderRow) → IsHeldRight o → IsHeldRight (f o)

pub taken_by-IsSafe : (worker : Text) (now : ℕ) → IsSafe (taken_by worker now)
unfolding taken_by
taken_by-IsSafe worker now = record {
  keeps_seq = λ o. refl;
  keeps_order_id = λ o. refl;
  keeps_message = λ o a h. h;
  keeps_held = λ o h. (refl, refl);
}

pub opened_values-IsSafe :
    (transaction_id bank_order_id : Option Text) (now : ℕ)
    → IsSafe (opened_values transaction_id bank_order_id now)
unfolding opened_values
opened_values-IsSafe transaction_id bank_order_id now = record {
  keeps_seq = λ o. refl;
  keeps_order_id = λ o. refl;
  keeps_message = λ o a h. h;
  keeps_held = λ o h. h;
}

pub submitted-IsSafe :
    (bank_order_id code report_text : Option Text) (now : ℕ)
    → IsSafe (λ o.
      settled_values OrderState.submitted now (submitted_values bank_order_id code report_text o))
unfolding settled_values submitted_values
submitted-IsSafe bank_order_id code report_text now = record {
  keeps_seq = λ o. refl;
  keeps_order_id = λ o. refl;
  keeps_message = λ o a h. h;
  keeps_held = λ o h. (refl, refl);
}

pub refused-IsSafe :
    (code report_text request : Option Text) (errors : Option (List Text)) (now : ℕ)
    → IsSafe (λ o.
      settled_values OrderState.rejected now (refused_values code report_text request errors o))
unfolding settled_values refused_values
refused-IsSafe code report_text request errors now = record {
  keeps_seq = λ o. refl;
  keeps_order_id = λ o. refl;
  keeps_message = λ o a h. h;
  keeps_held = λ o h. (refl, refl);
}

pub failed-IsSafe :
    (code report_text : Option Text) (reason : Text) (now : ℕ)
    → IsSafe (λ o. settled_values OrderState.failed now (failed_values code report_text reason o))
unfolding settled_values failed_values
failed-IsSafe code report_text reason now = record {
  keeps_seq = λ o. refl;
  keeps_order_id = λ o. refl;
  keeps_message = λ o a h. h;
  keeps_held = λ o h. (refl, refl);
}

pub deferred_values-IsSafe :
    (wait : ℕ) (reason : Text) (code report_text : Option Text) (now : ℕ)
    → IsSafe (deferred_values wait reason code report_text now)
unfolding deferred_values
deferred_values-IsSafe wait reason code report_text now = record {
  keeps_seq = λ o. refl;
  keeps_order_id = λ o. refl;
  keeps_message = λ o a h. h;
  keeps_held = λ o h. (refl, refl);
}

pub replayed_values-IsSafe : (now : ℕ) → IsSafe (replayed_values now)
unfolding replayed_values
replayed_values-IsSafe now = record {
  keeps_seq = λ o. refl;
  keeps_order_id = λ o. refl;
  keeps_message = λ o a h. h;
  keeps_held = λ o h. (refl, refl);
}

module _ (s : Store) where
  -- An `UPDATE` of orders.
  pub safe-WellFormed :
      (p : OrderRow → Bool) (f : OrderRow → OrderRow)
      → IsSafe f
      → WellFormed s
      → WellFormed (record s { orders = update_where p f s.orders })
  safe-WellFormed p f safe w = record {
    distinct_seq = Distinct-update_where (λ o. o.seq) p f safe.keeps_seq s.orders w.distinct_seq;
    distinct_order =
        Distinct-update_where (λ o. o.order_id) p f safe.keeps_order_id s.orders w.distinct_order;
    distinct_attempt = w.distinct_attempt;
    held = All-update_where p f (λ o _. safe.keeps_held o) s.orders w.held;
    live =
        All-update_where p f
          (λ o _ (a, alone, carries).
            (a, rw (safe.keeps_order_id o) alone, safe.keeps_message o a carries))
          s.orders w.live;
  }

  -- An entry in the audit log changes neither table.
  pub audit-WellFormed :
      (log : List AuditEvent) → WellFormed s → WellFormed (record s { audit = log })
  audit-WellFormed log w = record {
    distinct_seq = w.distinct_seq;
    distinct_order = w.distinct_order;
    distinct_attempt = w.distinct_attempt;
    held = w.held;
    live = w.live;
  }

-- The bank's answer on the live attempt.
answered-attempt_id :
    (code report_text : Option Text) (now : ℕ) (a : AttemptRow)
    → (answered code report_text now a).attempt_id ≡ a.attempt_id
unfolding answered
answered-attempt_id code report_text now a = refl

answered-is_attempt :
    (code report_text : Option Text) (now : ℕ) (id : Text) (a : AttemptRow)
    → is_attempt id AttemptState.live (answered code report_text now a)
      ≡ is_attempt id AttemptState.live a
unfolding answered
answered-is_attempt code report_text now id a = refl

answered-IsLiveRight :
    (id : Text) (code report_text : Option Text) (now : ℕ) (rows : List AttemptRow) (o : OrderRow)
    → IsLiveRight rows o
    → IsLiveRight
        (update_where (is_attempt id AttemptState.live) (answered code report_text now) rows)
        o
unfolding answered update_where
answered-IsLiveRight id code report_text now rows o (a, alone, carries) =
    let same =
      select_where-update_where (is_attempt o.order_id AttemptState.live)
        (is_attempt id AttemptState.live) (answered code report_text now)
        (answered-is_attempt code report_text now o.order_id) rows in
    elim (Bool-cases (is_attempt id AttemptState.live a)) [
      | inl e ↦ (answered code report_text now a, rw (same, alone, e) refl, carries)
      | inr e ↦ (a, rw (same, alone, e) refl, carries)
    ]

pub answer_live-WellFormed :
    (id : Text) (code report_text : Option Text) (now : ℕ) (s : Store)
    → WellFormed s
    → WellFormed (answer_live id code report_text now s)
unfolding answer_live
answer_live-WellFormed id code report_text now s w = record {
  distinct_seq = w.distinct_seq;
  distinct_order = w.distinct_order;
  distinct_attempt =
      Distinct-update_where (λ a. a.attempt_id) (is_attempt id AttemptState.live)
        (answered code report_text now) (answered-attempt_id code report_text now) s.attempts
        w.distinct_attempt;
  held = w.held;
  live = map-All (answered-IsLiveRight id code report_text now s.attempts) s.orders w.live;
}
