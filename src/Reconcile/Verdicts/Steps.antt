-- ===== src/Reconcile/Verdicts/Steps.antt =====
-- One row, one report: the condition of the `UPDATE` and the values that it writes, against the step of
-- the state machine.
use painfree_ebics_middlewar.Prelude.{
  ℕ, Text, text_eq_refl, Bool-cases, leb, Option, none, some, ◌≡◌, refl, inl, inr, if◌then◌else◌,
}
use painfree_ebics_middlewar.Orders.Rows.{OrderState, same_state}
use painfree_ebics_middlewar.Reconcile.Codes.{is_revocable}
use painfree_ebics_middlewar.Reconcile.Moves.{IsDecision, takes, turns_down}
use painfree_ebics_middlewar.Reconcile.Apply.{overturned_from, reconciles_from, movable_from}
use painfree_ebics_middlewar.Reconcile.Verdicts.{
  acknowledged_at, awaiting, uploading, closed, refuses, taken, standing_of, verdict_of, checked_at,
  hear,
}

-- A refusal with a date, of an order that is acknowledged.
overturns :
    (status : Option Text) (written : ℕ) (before : Option Text) (at : Option ℕ)
    → (if movable_from
          (overturned_from OrderState.rejected (some written) OrderState.acknowledged before at)
          OrderState.acknowledged
          before
        then standing_of OrderState.rejected status (some written)
        else standing_of OrderState.acknowledged before at)
      ≡ hear
          (verdict_of (some OrderState.rejected) status (some written))
          (standing_of OrderState.acknowledged before at)
unfolding movable_from reconciles_from same_state
overturns status written none at = refl
overturns status written (some before) none = refl
overturns status written (some before) (some at) = elim (Bool-cases (is_revocable before)) [
  | inl e ↦ elim (Bool-cases (leb written at)) [
    | inl early ↦ rw (e, early) refl
    | inr later ↦ rw (e, later, text_eq_refl before) refl
  ]
  | inr e ↦ rw e refl
]

hear-answers : (c : Option ℕ) → acknowledged_at c ≡ hear (taken c) awaiting
hear-answers none = refl
hear-answers (some at) = refl

hear-uploading : (c : Option ℕ) → uploading ≡ hear (taken c) uploading
hear-uploading none = refl
hear-uploading (some at) = refl

hear-closed : (c : Option ℕ) (state : OrderState) → closed state ≡ hear (taken c) (closed state)
hear-closed none state = refl
hear-closed (some at) state = refl

hear-checked : (c d : Option ℕ) → acknowledged_at d ≡ hear (taken c) (acknowledged_at d)
hear-checked none none = refl
hear-checked none (some at) = refl
hear-checked (some t) none = refl
hear-checked (some t) (some at) = refl

hear-undated : (d : Option ℕ) → acknowledged_at d ≡ hear (refuses none) (acknowledged_at d)
hear-undated none = refl
hear-undated (some at) = refl

pub moved-standing :
    (state : OrderState) (status : Option Text) (written : Option ℕ) (held : OrderState)
    (before : Option Text) (at : Option ℕ)
    → IsDecision state
    → (if movable_from (overturned_from state written held before at) held before
        then standing_of state status written
        else standing_of held before at)
      ≡ hear (verdict_of (some state) status written) (standing_of held before at)
unfolding movable_from reconciles_from same_state
moved-standing state status written OrderState.accepted before at takes =
    hear-answers (checked_at status written)
moved-standing state status written OrderState.submitted before at takes =
    hear-answers (checked_at status written)
moved-standing state status written OrderState.submitting before at takes =
    hear-uploading (checked_at status written)
moved-standing state status written OrderState.acknowledged before at takes =
    hear-checked (checked_at status written) (checked_at before at)
moved-standing state status written OrderState.rejected before at takes =
    hear-closed (checked_at status written) OrderState.rejected
moved-standing state status written OrderState.failed before at takes =
    hear-closed (checked_at status written) OrderState.failed
moved-standing state status written OrderState.returned before at takes =
    hear-closed (checked_at status written) OrderState.returned
moved-standing state status (some written) OrderState.acknowledged before at turns_down =
    overturns status written before at
moved-standing state status none OrderState.acknowledged before at turns_down =
    hear-undated (checked_at before at)
moved-standing state status none OrderState.accepted before at turns_down = refl
moved-standing state status (some written) OrderState.accepted before at turns_down = refl
moved-standing state status none held before at turns_down = refl
moved-standing state status (some written) held before at turns_down = refl
