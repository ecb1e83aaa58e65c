-- ===== src/Reconcile/Verdicts/Refines.antt =====
-- The reconciler implements the state machine, for one report and for any sequence of them.
use painfree_ebics_middlewar.Prelude.{
  ℕ, Text, text_eq, Bool, true, false, Bool-cases, Option, none, some, Option-cases, List, [], ◌∷◌,
  All, All-of_Memᴰ, Distinct, update_where, ◌≡◌, refl, subst, sym, ap, ◌∙◌, inl, inr, if◌then◌else◌,
}
use painfree_ebics_middlewar.Orders.Rows.{OrderState, OrderRow, Store, is_order, find_order}
use painfree_ebics_middlewar.Reconcile.Reports.{StatusReport}
use painfree_ebics_middlewar.Reconcile.Decide.{StatusOutcome, resolve}
use painfree_ebics_middlewar.Reconcile.Apply.{
  overturned_by, revocable, movable, is_moved, reported_values, reported_at, reconcile,
}
use painfree_ebics_middlewar.Reconcile.Verdicts.{
  Standing, standing, standings, Verdict, verdict, verdict_of, hear, hear_of, Arrival, receive,
  hear_all, hear_some,
}
use painfree_ebics_middlewar.Reconcile.Moves.{
  find_order_only, Writes, IsDecision, resolve-Writes, reconcile-decided, reconcile-undecided,
  reconcile-Distinct,
}
use painfree_ebics_middlewar.Reconcile.Verdicts.Steps.{moved-standing}

-- The row that an id finds is the one that has it.
abbrev pub IsFound : Text → List OrderRow → OrderRow → Type 0
IsFound id orders o = is_order id o ≡ true → find_order id orders ≡ some o

pub Distinct-IsFound :
    (id : Text) (orders : List OrderRow)
    → Distinct (λ o. o.order_id) orders
    → All (IsFound id orders) orders
Distinct-IsFound id orders d =
    All-of_Memᴰ (IsFound id orders) orders (λ o m. find_order_only id o orders d m)

module _ (id : Text) (outcome : StatusOutcome) (state : OrderState) (written : Option ℕ)
    (now : ℕ) where
  abbrev says : Verdict
  says = verdict_of (some state) outcome.status written

  abbrev heard : List OrderRow → OrderRow → OrderRow
  heard all o =
      if is_moved id (revocable id state written all) o
      then reported_values state outcome written now o
      else o

  abbrev line : OrderRow → Text × Standing
  line o = (o.order_id, standing o)

  step :
      (o : OrderRow) (b : Bool)
      → IsDecision state
      → movable (overturned_by state written (some o)) o ≡ b
      → line (if b then reported_values state outcome written now o else o)
        ≡ (o.order_id, hear says (standing o))
  unfolding reported_values
  step o true d e =
      let moved =
        moved-standing state outcome.status written o.state o.bank_status o.status_reported_at d in
      ap (λ x. (o.order_id, x)) (rw e at moved)
  step o false d e =
      let moved =
        moved-standing state outcome.status written o.state o.bank_status o.status_reported_at d in
      ap (λ x. (o.order_id, x)) (rw e at moved)

  row-line :
      (all : List OrderRow) (o : OrderRow)
      → IsDecision state
      → IsFound id all o
      → line (heard all o)
        ≡ (o.order_id, if is_order id o then hear says (standing o) else standing o)
  unfolding revocable
  row-line all o d found = elim (Bool-cases (is_order id o)) [
    | inl e ↦ rw (found e, e) (step o (movable (overturned_by state written (some o)) o) d refl)
    | inr e ↦ rw e refl
  ]

  rows-standings :
      (all rows : List OrderRow)
      → IsDecision state
      → All (IsFound id all) rows
      → standings (
          update_where
            (is_moved id (revocable id state written all))
            (reported_values state outcome written now)
            rows)
        ≡ hear_of id says (standings rows)
  unfolding update_where
  rows-standings all [] d found = refl
  rows-standings all (o ∷ os) d found =
      ap
        (λ x.
          x
          ∷ standings (
              update_where (is_moved id (revocable id state written all))
                (reported_values state outcome written now) os))
        (row-line all o d found.0)
      ∙ ap
          (λ rest.
            (o.order_id, if is_order id o then hear says (standing o) else standing o) ∷ rest)
          (rows-standings all os d found.1)

-- No verdict leaves everything as it stands.
hear_of-undecided :
    (id : Text) (rows : List (Text × Standing)) → hear_of id Verdict.undecided rows ≡ rows
hear_of-undecided id [] = refl
hear_of-undecided id ((other, s) ∷ rows) = elim (Bool-cases (text_eq other id)) [
  | inl e ↦ rw (e, hear_of-undecided id rows) refl
  | inr e ↦ rw (e, hear_of-undecided id rows) refl
]

module _ (datetime_utc : Text → Option ℕ) where
  hear-by :
      (id : Text) (p : StatusReport) (state : OrderState) (s : Store)
      → (resolve p).state ≡ some state
      → hear_of id
          (verdict_of (some state) (resolve p).status (reported_at datetime_utc p))
          (standings s.orders)
        ≡ hear_of id (verdict datetime_utc p) (standings s.orders)
  hear-by id p state s e = rw e refl

  reconcile-hear :
      (connection_id id : Text) (p : StatusReport) (now : ℕ) (s : Store)
      → Distinct (λ o. o.order_id) s.orders
      → standings (reconcile datetime_utc connection_id (some id) p now s).1.orders
        ≡ hear_of id (verdict datetime_utc p) (standings s.orders)
  reconcile-hear connection_id id p now s d = elim (Option-cases (resolve p).state) [
    | inl e ↦
        ap standings (reconcile-undecided datetime_utc connection_id id p now s e)
        ∙ rw e (sym (hear_of-undecided id (standings s.orders)))
    | inr (state, e) ↦
        ap standings (reconcile-decided datetime_utc connection_id id p now s state e)
        ∙ rows-standings id (resolve p) state (reported_at datetime_utc p) now s.orders s.orders
            (subst Writes e (resolve-Writes p)) (Distinct-IsFound id s.orders d)
        ∙ hear-by id p state s e
  ]

  reconcile-hear_some :
      (connection_id : Text) (order_id : Option Text) (p : StatusReport) (now : ℕ) (s : Store)
      → Distinct (λ o. o.order_id) s.orders
      → standings (reconcile datetime_utc connection_id order_id p now s).1.orders
        ≡ hear_some order_id (verdict datetime_utc p) (standings s.orders)
  unfolding reconcile
  reconcile-hear_some connection_id none p now s d = refl
  reconcile-hear_some connection_id (some id) p now s d = reconcile-hear connection_id id p now s d

  -- The reconciler implements the state machine of verdicts. Over orders with distinct ids, after any
  -- sequence of reports, in whatever order they arrive and however often, each order stands where the
  -- verdicts of the reports that were given for it take it one after the other: an open order takes the
  -- first verdict, one acknowledged with a check that may be overturned takes a later refusal, and any
  -- other keeps its standing; and a report moves no order but its own.
  pub receive-hear_all :
      (arrivals : List Arrival) (s : Store)
      → Distinct (λ o. o.order_id) s.orders
      → standings (receive datetime_utc arrivals s).orders
        ≡ hear_all datetime_utc arrivals (standings s.orders)
  receive-hear_all [] s d = refl
  receive-hear_all (a ∷ rest) s d =
      receive-hear_all rest _
        (reconcile-Distinct datetime_utc a.connection_id a.order_id a.report a.now s d)
      ∙ ap (hear_all datetime_utc rest)
          (reconcile-hear_some a.connection_id a.order_id a.report a.now s d)
