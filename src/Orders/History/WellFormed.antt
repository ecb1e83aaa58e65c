-- ===== src/Orders/History/WellFormed.antt =====
-- What holds of the tables at any time: unique columns, who holds an order, and the live attempt.

use painfree_ebics_middlewar.Prelude.{
  ℕ, Text, true, is_some, Option, none, List, [], ◌∷◌, All, select_where, Distinct, ◌≡◌,
}
use painfree_ebics_middlewar.Orders.Rows.{
  OrderState, OrderRow, AttemptState, AttemptRow, Store, is_attempt,
}

-- An order is held by a worker, since an instant, exactly while it is `submitting`.
abbrev Holding : OrderState → Option Text → Option ℕ → Type 0
Holding OrderState.submitting worker since = (is_some worker ≡ true) × (is_some since ≡ true)
Holding state worker since = (worker ≡ none) × (since ≡ none)

abbrev pub IsHeldRight : OrderRow → Type 0
IsHeldRight o = Holding o.state o.worker_id o.claimed_at

-- The attempt carries the message of the order.
abbrev pub Carries : OrderRow → AttemptRow → Type 0
Carries o a =
    (a.msg_id ≡ o.msg_id)
    × (a.document ≡ o.document)
    × (a.payment_information_id ≡ o.payment_information_id)
    × (a.scheme ≡ o.scheme)

-- The live attempts of an order.
abbrev pub live_attempts : Text → List AttemptRow → List AttemptRow
live_attempts id attempts = select_where (is_attempt id AttemptState.live) attempts

-- An order has one live attempt, and it is the one whose message the order's row has.
abbrev pub IsLiveRight : List AttemptRow → OrderRow → Type 0
IsLiveRight attempts o =
    (a : AttemptRow) × (live_attempts o.order_id attempts ≡ a ∷ []) × Carries o a

pub record WellFormed (s : Store) : Type 0 where
  pub distinct_seq : Distinct (λ o. o.seq) s.orders
  pub distinct_order : Distinct (λ o. o.order_id) s.orders
  pub distinct_attempt : Distinct (λ a. a.attempt_id) s.attempts
  pub held : All IsHeldRight s.orders
  pub live : All (IsLiveRight s.attempts) s.orders
