-- ===== src/Orders/History/Reported.antt =====
-- What a status report does to the tables: painfree/reconcile.py in the history of the orders.
use mathlib.Core.List.{Memᴰ}
use painfree_ebics_middlewar.Prelude.{
  ℕ, Text, Bool, true, false, Bool-cases, is_some, Option, none, some, Option-cases, first,
  select_where, Memᴰ-kept, text_eq_differs, ◌≡◌, ◌≢◌, refl, ap, sym, subst, ◌⊎◌, inl, inr,
}
use painfree_ebics_middlewar.Orders.Rows.{OrderState, same_state, OrderRow, Store, is_order}
use painfree_ebics_middlewar.Reconcile.Reports.{StatusReport}
use painfree_ebics_middlewar.Reconcile.Decide.{StatusOutcome, resolve}
use painfree_ebics_middlewar.Reconcile.Apply.{
  revocable, reconciles_from, movable_from, movable, is_moved, reported_values, after_update,
  written_state, reported_at, move, or_ignored, reconcile,
}
use painfree_ebics_middlewar.Reconcile.Moves.{
  IsDecision, takes, turns_down, resolve-Writes, written_state-IsDecision, reconcile-decided,
  reconcile-undecided,
}
use painfree_ebics_middlewar.Orders.History.WellFormed.{WellFormed}
use painfree_ebics_middlewar.Orders.History.Changes.{IsSafe, safe-WellFormed, audit-WellFormed}

reported_values-IsSafe :
    (state : OrderState) (outcome : StatusOutcome) (written : Option ℕ) (now : ℕ)
    → IsDecision state
    → IsSafe (reported_values state outcome written now)
unfolding reported_values
reported_values-IsSafe state outcome written now takes = record {
  keeps_seq = λ o. refl;
  keeps_order_id = λ o. refl;
  keeps_message = λ o a h. h;
  keeps_held = λ o h. (refl, refl);
}
reported_values-IsSafe state outcome written now turns_down = record {
  keeps_seq = λ o. refl;
  keeps_order_id = λ o. refl;
  keeps_message = λ o a h. h;
  keeps_held = λ o h. (refl, refl);
}

-- A worker's order is none that a report moves.
submitting-movable :
    (revoked : Option Text) (o : OrderRow)
    → o.state ≡ OrderState.submitting
    → movable revoked o ≡ false
unfolding movable_from reconciles_from same_state
submitting-movable none o h = rw h refl
submitting-movable (some r) o h = rw h refl

module _ (datetime_utc : Text → Option ℕ) where
  move-WellFormed :
      (connection_id id : Text) (outcome : StatusOutcome) (p : StatusReport) (now : ℕ) (s : Store)
      → IsDecision (written_state outcome.state)
      → WellFormed s
      → WellFormed (move datetime_utc connection_id id outcome p now s).1
  unfolding move
  move-WellFormed connection_id id outcome p now s d w =
      let written = reported_at datetime_utc p in
      let state = written_state outcome.state in
      let seen = is_moved id (revocable id state written s.orders) in
      after (first (select_where seen s.orders)) (
        safe-WellFormed s seen (reported_values state outcome written now)
          (reported_values-IsSafe state outcome written now d) w)
    where
      after :
          (row : Option OrderRow) {t : Store}
          → WellFormed t
          → WellFormed (after_update connection_id id (written_state outcome.state) row s t).1
      after none k = w
      after (some o) {t} k = audit-WellFormed t _ k

  pub reconcile-WellFormed :
      (connection_id : Text) (order_id : Option Text) (p : StatusReport) (now : ℕ) (s : Store)
      → WellFormed s
      → WellFormed (reconcile datetime_utc connection_id order_id p now s).1
  unfolding reconcile
  reconcile-WellFormed connection_id none p now s w = audit-WellFormed s _ w
  reconcile-WellFormed connection_id (some id) p now s w =
      elim (Bool-cases (is_some (resolve p).state)) [
        | inl e ↦ rw e (
            settled (move datetime_utc connection_id id (resolve p) p now s) (
              move-WellFormed connection_id id (resolve p) p now s
                (written_state-IsDecision (resolve p).state (resolve-Writes p)) w))
        | inr e ↦ rw e (audit-WellFormed s _ w)
      ]
    where
      settled :
          (x : Bool × Store)
          → WellFormed x.1
          → WellFormed (or_ignored datetime_utc connection_id id x)
      settled (true, t) k = k
      settled (false, t) k = audit-WellFormed t _ k

  -- A report leaves the order of a worker, and every order that it is not about.
  pub reconcile-kept :
      (connection_id : Text) (order_id : Option Text) (p : StatusReport) (now : ℕ) (o : OrderRow)
      (s : Store)
      → Memᴰ o s.orders
      → (o.state ≡ OrderState.submitting) ⊎ (order_id ≢ some o.order_id)
      → Memᴰ o (reconcile datetime_utc connection_id order_id p now s).1.orders
  unfolding reconcile
  reconcile-kept connection_id none p now o s m h = m
  reconcile-kept connection_id (some id) p now o s m h = elim (Option-cases (resolve p).state) [
    | inl e ↦
        subst (λ rows. Memᴰ o rows)
          (sym (reconcile-undecided datetime_utc connection_id id p now s e)) m
    | inr (state, e) ↦
        subst (λ rows. Memᴰ o rows)
          (sym (reconcile-decided datetime_utc connection_id id p now s state e))
          (Memᴰ-kept _ _ s.orders m (not_moved _ h))
  ]
    where
      not_moved :
          (revoked : Option Text)
          → (o.state ≡ OrderState.submitting) ⊎ (some id ≢ some o.order_id)
          → is_moved id revoked o ≡ false
      not_moved revoked (inl held) = elim (Bool-cases (is_order id o)) [
        | inl e ↦ rw e (submitting-movable revoked o held)
        | inr e ↦ rw e refl
      ]
      not_moved revoked (inr differs) =
          rw (text_eq_differs o.order_id id (λ same. differs (ap some (sym same)))) refl
