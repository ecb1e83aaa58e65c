-- ===== src/Reconcile/Verdicts.antt =====
-- What the reports promise, without tables and codes: where an order stands for the bank, and what a
-- verdict of the bank does to it. The reconciler implements it.
pub mod Steps
pub mod Refines
pub mod Again
use painfree_ebics_middlewar.Prelude.{
  ℕ, Text, text_eq, text_eq_refl, Bool, true, false, not, ◌&&◌, Bool-cases, leb, Option, none, some,
  List, [], ◌∷◌, map, All, map-All, Distinct, is_some, first, update_where, select_where,
  update_where_unseen, Option-cases, ◌≡◌, refl, ap, sym, ◌∙◌, ◌⊎◌, inl, inr, if◌then◌else◌,
}
use painfree_ebics_middlewar.Orders.Rows.{
  OrderState, same_state, OrderRow, Store, is_order, option_is, find_order,
}
use painfree_ebics_middlewar.Reconcile.Codes.{Disposition, StatusCode, is_revocable}
use painfree_ebics_middlewar.Reconcile.Reports.{StatusReport}
use painfree_ebics_middlewar.Reconcile.Decide.{StatusOutcome, outcome_state, decisive, resolve}
use painfree_ebics_middlewar.Reconcile.Apply.{
  overturned, overturned_from, overturned_by, revocable, reconciles_from, movable_from, movable,
  is_moved, reported_values, after_update, written_state, reported_at, reconcile, move, or_ignored,
  reconcile,
}

-- Where an order stands: it awaits an answer; a worker has it; the bank checked the file and may still
-- refuse it, as of the date of its report; or nothing that the bank reports moves it.
pub data Standing : Type 0 where
  awaiting uploading : Standing
  checked : (reported : ℕ) → Standing
  closed : (state : OrderState) → Standing

-- What a report says: nothing yet; taken, with the date if it was only checked; or refused.
pub data Verdict : Type 0 where
  undecided : Verdict
  taken : (checked : Option ℕ) → Verdict
  refuses : (written : Option ℕ) → Verdict

-- The state machine: a refusal overturns a check that was reported before it.
abbrev pub hear : Verdict → Standing → Standing
hear (taken none) awaiting = closed OrderState.acknowledged
hear (taken (some at)) awaiting = checked at
hear (refuses written) awaiting = closed OrderState.rejected
hear (refuses (some written)) (checked at) =
    if not (leb written at) then closed OrderState.rejected else checked at
hear _ s = s

abbrev pub checked_at : Option Text → Option ℕ → Option ℕ
checked_at none at = none
checked_at (some status) none = none
checked_at (some status) (some at) = if is_revocable status then some at else none

abbrev pub acknowledged_at : Option ℕ → Standing
acknowledged_at none = closed OrderState.acknowledged
acknowledged_at (some at) = checked at

abbrev pub standing_of : OrderState → (status : Option Text) → (reported : Option ℕ) → Standing
standing_of OrderState.accepted status reported = awaiting
standing_of OrderState.submitted status reported = awaiting
standing_of OrderState.submitting status reported = uploading
standing_of OrderState.acknowledged status reported = acknowledged_at (checked_at status reported)
standing_of state status reported = closed state

abbrev pub standing : OrderRow → Standing
standing o = standing_of o.state o.bank_status o.status_reported_at

abbrev pub verdict_of : Option OrderState → (status : Option Text) → (written : Option ℕ) → Verdict
verdict_of none status written = undecided
verdict_of (some OrderState.rejected) status written = refuses written
verdict_of (some state) status written = taken (checked_at status written)

-- The table, as where each order stands.
abbrev pub standings : List OrderRow → List (Text × Standing)
standings [] = []
standings (o ∷ os) = (o.order_id, standing o) ∷ standings os

abbrev pub hear_of : Text → Verdict → List (Text × Standing) → List (Text × Standing)
hear_of id v [] = []
hear_of id v (row ∷ rows) =
    (row.0, if text_eq row.0 id then hear v row.1 else row.1) ∷ hear_of id v rows

abbrev pub hear_some : Option Text → Verdict → List (Text × Standing) → List (Text × Standing)
hear_some none v rows = rows
hear_some (some id) v rows = hear_of id v rows

-- A report that was stored, with the order that it answers.
pub record Arrival : Type 0 where
  pub connection_id : Text
  pub order_id : Option Text
  pub report : StatusReport
  pub now : ℕ

module _ (datetime_utc : Text → Option ℕ) where
  -- What a report says, by the state that it decides on, its decisive status and its date.
  abbrev pub verdict : StatusReport → Verdict
  verdict p = verdict_of (resolve p).state (resolve p).status (reported_at datetime_utc p)

  -- The reports that arrive, one after the other.
  abbrev pub receive : List Arrival → Store → Store
  receive [] s = s
  receive (a ∷ rest) s =
      receive rest (reconcile datetime_utc a.connection_id a.order_id a.report a.now s).1

  abbrev pub hear_all : List Arrival → List (Text × Standing) → List (Text × Standing)
  hear_all [] rows = rows
  hear_all (a ∷ rest) rows = hear_all rest (hear_some a.order_id (verdict a.report) rows)
