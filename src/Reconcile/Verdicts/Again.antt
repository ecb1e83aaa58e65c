-- ===== src/Reconcile/Verdicts/Again.antt =====
-- A report that arrives again.
use painfree_ebics_middlewar.Prelude.{
  ℕ, Text, true, false, Bool-cases, Option, none, some, Option-cases, List, [], ◌∷◌, All, map-All,
  arith, zip-All, All-updated, Distinct, update_where, update_where_none, ◌≡◌, refl, subst, sym,
  ◌∙◌, inl, inr,
}
use painfree_ebics_middlewar.Orders.Rows.{
  OrderState, same_state, OrderRow, Store, is_order, find_order,
}
use painfree_ebics_middlewar.Reconcile.Reports.{StatusReport}
use painfree_ebics_middlewar.Reconcile.Decide.{StatusOutcome, resolve}
use painfree_ebics_middlewar.Reconcile.Apply.{
  overturned_from, overturned_by, revocable, reconciles_from, movable_from, movable, is_moved,
  reported_values, reported_at, reconcile,
}
use painfree_ebics_middlewar.Reconcile.Moves.{
  Writes, IsDecision, takes, turns_down, resolve-Writes, reconcile-decided, reconcile-undecided,
  reconcile-Distinct,
}
use painfree_ebics_middlewar.Reconcile.Verdicts.{Arrival, receive}
use painfree_ebics_middlewar.Reconcile.Verdicts.Refines.{IsFound, Distinct-IsFound}

-- An order that a report moved is not one that the same report may move.
moved-movable :
    (state : OrderState) (status : Option Text) (written : Option ℕ)
    → IsDecision state
    → movable_from (overturned_from state written state status written) state status ≡ false
unfolding movable_from reconciles_from same_state
moved-movable state status written takes = refl
moved-movable state status none turns_down = refl
moved-movable state status (some at) turns_down = refl

-- No report moves a rejected order.
rejected_closed :
    (state : OrderState) (written : Option ℕ) (status : Option Text) (reported : Option ℕ)
    → IsDecision state
    → movable_from
        (overturned_from state written OrderState.rejected status reported)
        OrderState.rejected
        status
      ≡ false
unfolding movable_from reconciles_from same_state
rejected_closed state written status reported takes = refl
rejected_closed state none status reported turns_down = refl
rejected_closed state (some at) status reported turns_down = refl

-- Every report that decides moves an order that waits for one.
open-movable :
    (state : OrderState) (written : Option ℕ) (current : OrderState) (status : Option Text)
    (reported : Option ℕ)
    → IsDecision state
    → reconciles_from current ≡ true
    → movable_from (overturned_from state written current status reported) current status ≡ true
unfolding movable_from reconciles_from same_state
open-movable state written OrderState.accepted status reported takes h = refl
open-movable state none OrderState.accepted status reported turns_down h = refl
open-movable state (some at) OrderState.accepted status reported turns_down h = refl
open-movable state written OrderState.submitted status reported takes h = refl
open-movable state none OrderState.submitted status reported turns_down h = refl
open-movable state (some at) OrderState.submitted status reported turns_down h = refl
open-movable state written OrderState.submitting status reported d h = cc
open-movable state written OrderState.acknowledged status reported d h = cc
open-movable state written OrderState.rejected status reported d h = cc
open-movable state written OrderState.failed status reported d h = cc
open-movable state written OrderState.returned status reported d h = cc

-- An acknowledgement moves only an order that waits for one.
acknowledges_open :
    (other : Text) (dated : Option ℕ) (all : List OrderRow) (o : OrderRow)
    → is_moved other (revocable other OrderState.acknowledged dated all) o ≡ true
    → reconciles_from o.state ≡ true
unfolding revocable movable_from
acknowledges_open other dated all o h = by (find_order other all) h
  where
    by :
        (found : Option OrderRow)
        → is_moved other (overturned_by OrderState.acknowledged dated found) o ≡ true
        → reconciles_from o.state ≡ true
    by none h = ground arith
    by (some x) h = ground arith

module _ (id : Text) (outcome : StatusOutcome) (state : OrderState) (written : Option ℕ) where
  -- The report does not move the row.
  abbrev Rests : OrderRow → Type 0
  Rests o = is_order id o ≡ true → movable (overturned_by state written (some o)) o ≡ false

  values-Rests :
      (now : ℕ) (o : OrderRow)
      → IsDecision state
      → Rests (reported_values state outcome written now o)
  unfolding reported_values
  values-Rests now o d _ = moved-movable state outcome.status written d

  unmoved-Rests :
      (all : List OrderRow) (o : OrderRow)
      → IsFound id all o
      → is_moved id (revocable id state written all) o ≡ false
      → Rests o
  unfolding revocable
  unmoved-Rests all o found h e = rw (found e, e) at h

  updated-Rests :
      (now : ℕ) (orders : List OrderRow)
      → IsDecision state
      → Distinct (λ o. o.order_id) orders
      → All Rests (
          update_where
            (is_moved id (revocable id state written orders))
            (reported_values state outcome written now)
            orders)
  updated-Rests now orders d distinct =
      All-updated {P = IsFound id orders} {Q = Rests}
        (is_moved id (revocable id state written orders))
        (reported_values state outcome written now) (λ o _ _. values-Rests now o d)
        (λ o e found. unmoved-Rests orders o found e) orders (Distinct-IsFound id orders distinct)

  Rests-unmoved :
      (all : List OrderRow) (o : OrderRow)
      → Rests o × IsFound id all o
      → is_moved id (revocable id state written all) o ≡ false
  unfolding revocable
  Rests-unmoved all o (rests, found) = elim (Bool-cases (is_order id o)) [
    | inl e ↦ rw (found e, e) (rests e)
    | inr e ↦ rw e refl
  ]

  rested :
      (now : ℕ) (orders : List OrderRow)
      → Distinct (λ o. o.order_id) orders
      → All Rests orders
      → update_where
          (is_moved id (revocable id state written orders))
          (reported_values state outcome written now)
          orders
        ≡ orders
  rested now orders distinct rests = update_where_none _ _ orders (
      map-All (Rests-unmoved orders) orders
        (zip-All Rests (IsFound id orders) orders rests (Distinct-IsFound id orders distinct)))

  -- A row that the report does not move, and that another report moves, is still not one for it.
  moved-Rests :
      (other : Text) (said : StatusOutcome) (decision : OrderState) (dated : Option ℕ) (now : ℕ)
      (all : List OrderRow) (o : OrderRow)
      → IsDecision state
      → IsDecision decision
      → IsFound other all o
      → is_moved other (revocable other decision dated all) o ≡ true
      → Rests o
      → Rests (reported_values decision said dated now o)
  unfolding reported_values
  moved-Rests other said decision dated now all o d turns_down found h rests e =
      rejected_closed state written said.status dated d
  moved-Rests other said decision dated now all o d takes found h rests e =
      let no : true ≡ false =
        sym (
          open-movable state written o.state o.bank_status o.status_reported_at d
            (acknowledges_open other dated all o h))
        ∙ rests e in
      absurd (cc)

  unmatched-Rests :
      (datetime_utc : Text → Option ℕ) (connection_id : Text) (p : StatusReport) (now : ℕ)
      (s : Store)
      → All Rests s.orders
      → All Rests (reconcile datetime_utc connection_id none p now s).1.orders
  unfolding reconcile
  unmatched-Rests datetime_utc connection_id p now s rests = rests

  received-Rests :
      (datetime_utc : Text → Option ℕ) (a : Arrival) (s : Store)
      → IsDecision state
      → Distinct (λ o. o.order_id) s.orders
      → All Rests s.orders
      → All Rests (reconcile datetime_utc a.connection_id a.order_id a.report a.now s).1.orders
  received-Rests datetime_utc a s d distinct rests = elim (Option-cases a.order_id) [
    | inl none_id ↦ rw none_id (unmatched-Rests datetime_utc a.connection_id a.report a.now s rests)
    | inr (other, is_id) ↦ rw is_id (elim (Option-cases (resolve a.report).state) [
      | inl e ↦
          subst (All Rests)
            (sym (reconcile-undecided datetime_utc a.connection_id other a.report a.now s e)) rests
      | inr (decision, e) ↦
          subst (All Rests)
            (sym (reconcile-decided datetime_utc a.connection_id other a.report a.now s decision e))
            (All-updated {P = λ o. Rests o × IsFound other s.orders o} {Q = Rests} _ _
              (λ o moves (r, found).
                moved-Rests other (resolve a.report) decision (reported_at datetime_utc a.report)
                  a.now s.orders o d (subst Writes e (resolve-Writes a.report)) found moves r)
              (λ o stays (r, found). r) s.orders
              (zip-All Rests (IsFound other s.orders) s.orders rests
                (Distinct-IsFound other s.orders distinct)))
    ])
  ]

  receive-Rests :
      (datetime_utc : Text → Option ℕ) (between : List Arrival) (s : Store)
      → IsDecision state
      → Distinct (λ o. o.order_id) s.orders
      → All Rests s.orders
      → All Rests (receive datetime_utc between s).orders
  receive-Rests datetime_utc [] s d distinct rests = rests
  receive-Rests datetime_utc (a ∷ between) s d distinct rests =
      receive-Rests datetime_utc between _ d
        (reconcile-Distinct datetime_utc a.connection_id a.order_id a.report a.now s distinct)
        (received-Rests datetime_utc a s d distinct rests)

receive-Distinct :
    (datetime_utc : Text → Option ℕ) (between : List Arrival) (s : Store)
    → Distinct (λ o. o.order_id) s.orders
    → Distinct (λ o. o.order_id) (receive datetime_utc between s).orders
receive-Distinct datetime_utc [] s d = d
receive-Distinct datetime_utc (a ∷ between) s d =
    receive-Distinct datetime_utc between _
      (reconcile-Distinct datetime_utc a.connection_id a.order_id a.report a.now s d)

-- Banks send a report again, and others in between: after a report was applied to its order, whatever it
-- did, and after any further reports on this order or others, the same report for the same order leaves
-- every row of an order as it is. Only reports are applied in between: a worker that delivers the order,
-- or an operator who replays it, may open it for the report again. The ids of the orders are different
-- from each other.
pub reconcile_again :
    (datetime_utc : Text → Option ℕ) (connection_id id : Text) (p : StatusReport) (now later : ℕ)
    (between : List Arrival) (s : Store)
    → Distinct (λ o. o.order_id) s.orders
    → (reconcile datetime_utc connection_id (some id) p later (
        receive datetime_utc between
          (reconcile datetime_utc connection_id (some id) p now s).1)).1.orders
      ≡ (receive datetime_utc between
          (reconcile datetime_utc connection_id (some id) p now s).1).orders
reconcile_again datetime_utc connection_id id p now later between s d =
    let t = (reconcile datetime_utc connection_id (some id) p now s).1 in
    let distinct = reconcile-Distinct datetime_utc connection_id (some id) p now s d in
    let u = receive datetime_utc between t in
    elim (Option-cases (resolve p).state) [
      | inl e ↦ reconcile-undecided datetime_utc connection_id id p later u e
      | inr (state, e) ↦
          let written = reported_at datetime_utc p in
          let decided = subst Writes e (resolve-Writes p) in
          reconcile-decided datetime_utc connection_id id p later u state e
          ∙ rested id (resolve p) state written later u.orders
              (receive-Distinct datetime_utc between t distinct)
              (receive-Rests id (resolve p) state written datetime_utc between t decided distinct (
                subst (All (Rests id (resolve p) state written))
                  (sym (reconcile-decided datetime_utc connection_id id p now s state e))
                  (updated-Rests id (resolve p) state written now s.orders decided d)))
    ]
