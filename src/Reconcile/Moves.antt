-- ===== src/Reconcile/Moves.antt =====
-- What `reconcile` of painfree/reconcile.py does to the orders: one `UPDATE`, or nothing.
use mathlib.Core.List.{Memᴰ}
use painfree_ebics_middlewar.Prelude.{
  text_eq→eq, Bool-cases, List, [], ◌∷◌, All-Memᴰ, ◌≢◌, subst, ℕ, Text, Bool, true, false, is_some,
  Option, none, some, Option-cases, Distinct, first, Distinct-update_where, update_where,
  select_where, update_where_unseen, ◌≡◌, refl, sym, ap, ◌∙◌, inl, inr, if◌then◌else◌,
}
use painfree_ebics_middlewar.Orders.Rows.{OrderState, OrderRow, Store, is_order, find_order}
use painfree_ebics_middlewar.Reconcile.Codes.{Disposition, StatusCode, outcome_of}
use painfree_ebics_middlewar.Reconcile.Reports.{StatusReport}
use painfree_ebics_middlewar.Reconcile.Decide.{StatusOutcome, outcome_state, decisive, resolve}
use painfree_ebics_middlewar.Reconcile.Apply.{
  revocable, is_moved, reported_values, written_state, reported_at, move, or_ignored, reconcile,
}

-- A report that decides writes one of two states.
pub data IsDecision : OrderState → Type 0 where
  takes : IsDecision OrderState.acknowledged
  turns_down : IsDecision OrderState.rejected

abbrev pub Writes : Option OrderState → Type 0
Writes none = Unit
Writes (some state) = IsDecision state

outcome_of-Writes : (d : Disposition) → Writes (outcome_of d)
outcome_of-Writes Disposition.accepts = takes
outcome_of-Writes Disposition.refuses = turns_down
outcome_of-Writes Disposition.partial = takes
outcome_of-Writes Disposition.undecided = tt

pub outcome_state-Writes : (c : Option StatusCode) → Writes (outcome_state c)
outcome_state-Writes none = tt
outcome_state-Writes (some c) = outcome_of-Writes c.disposition

pub resolve-Writes : (p : StatusReport) → Writes (resolve p).state
unfolding resolve
resolve-Writes p = outcome_state-Writes (decisive p).0

pub written_state-IsDecision :
    (decision : Option OrderState) → Writes decision → IsDecision (written_state decision)
written_state-IsDecision none d = takes
written_state-IsDecision (some state) d = d

-- An id finds the one row that has it.
pub find_order_only :
    (id : Text) (o : OrderRow) (rows : List OrderRow)
    → Distinct (λ x. x.order_id) rows
    → Memᴰ o rows
    → is_order id o ≡ true
    → find_order id rows ≡ some o
unfolding find_order
find_order_only id o [] d m e = elim m [ ]
find_order_only id o (x ∷ xs) d (Memᴰ.head same) e =
    let here : is_order id x ≡ true = subst (λ y. is_order id y ≡ true) same e in
    rw here (ap some (sym same))
find_order_only id o (x ∷ xs) d (Memᴰ.tail m) e = elim (Bool-cases (is_order id x)) [
  | inl here ↦ absurd (
      All-Memᴰ (λ y. y.order_id ≢ x.order_id) xs d.0 m
        (text_eq→eq o.order_id id e ∙ sym (text_eq→eq x.order_id id here)))
  | inr other ↦ rw other (find_order_only id o xs d.1 m e)
]

if-true {ℓ} : {A : Type ℓ} (b : Bool) (x y : A) → b ≡ true → (if b then x else y) ≡ x
if-true b x y e = rw e refl

module _ (datetime_utc : Text → Option ℕ) where
  pub move-orders :
      (connection_id id : Text) (outcome : StatusOutcome) (p : StatusReport) (now : ℕ) (s : Store)
      → (move datetime_utc connection_id id outcome p now s).1.orders
        ≡ update_where
            (is_moved id
              (revocable id (written_state outcome.state) (reported_at datetime_utc p) s.orders))
            (reported_values (written_state outcome.state) outcome (reported_at datetime_utc p) now)
            s.orders
  unfolding move
  move-orders connection_id id outcome p now s =
      let state = written_state outcome.state in
      let written = reported_at datetime_utc p in
      let seen = is_moved id (revocable id state written s.orders) in
      elim (Option-cases (first (select_where seen s.orders))) [
        | inl e ↦
            rw e (
              sym (update_where_unseen seen (reported_values state outcome written now) s.orders e))
        | inr (o, e) ↦ rw e refl
      ]

  or_ignored-orders :
      (connection_id id : Text) (x : Bool × Store)
      → (or_ignored datetime_utc connection_id id x).orders ≡ x.1.orders
  or_ignored-orders connection_id id (true, s) = refl
  or_ignored-orders connection_id id (false, s) = refl

  pub reconcile-decided :
      (connection_id id : Text) (p : StatusReport) (now : ℕ) (s : Store) (state : OrderState)
      → (resolve p).state ≡ some state
      → (reconcile datetime_utc connection_id (some id) p now s).1.orders
        ≡ update_where
            (is_moved id (revocable id state (reported_at datetime_utc p) s.orders))
            (reported_values state (resolve p) (reported_at datetime_utc p) now)
            s.orders
  unfolding reconcile
  reconcile-decided connection_id id p now s state e =
      ap (λ (x : Store). x.orders) (if-true (is_some (resolve p).state) _ _ (ap is_some e))
      ∙ or_ignored-orders connection_id id (move datetime_utc connection_id id (resolve p) p now s)
      ∙ move-orders connection_id id (resolve p) p now s
      ∙ ap
          (λ decision.
            update_where
              (is_moved id
                (revocable id (written_state decision) (reported_at datetime_utc p) s.orders))
              (reported_values (written_state decision) (resolve p) (reported_at datetime_utc p)
                now)
              s.orders)
          e

  pub reconcile-undecided :
      (connection_id id : Text) (p : StatusReport) (now : ℕ) (s : Store)
      → (resolve p).state ≡ none
      → (reconcile datetime_utc connection_id (some id) p now s).1.orders ≡ s.orders
  unfolding reconcile
  reconcile-undecided connection_id id p now s e = rw e refl

  pub reconcile-Distinct :
      (connection_id : Text) (order_id : Option Text) (p : StatusReport) (now : ℕ) (s : Store)
      → Distinct (λ o. o.order_id) s.orders
      → Distinct (λ o. o.order_id) (reconcile datetime_utc connection_id order_id p now s).1.orders
  unfolding reconcile reported_values
  reconcile-Distinct connection_id none p now s d = d
  reconcile-Distinct connection_id (some id) p now s d = elim (Option-cases (resolve p).state) [
    | inl e ↦ rw (reconcile-undecided connection_id id p now s e) d
    | inr (state, e) ↦
        rw (reconcile-decided connection_id id p now s state e)
          (Distinct-update_where (λ o. o.order_id) _ _ (λ o. refl) s.orders d)
  ]
