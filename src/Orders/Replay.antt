-- ===== src/Orders/Replay.antt =====
-- `OrderStore.replay` of painfree/orders.py: an order that was not delivered goes back to the queue.
use painfree_ebics_middlewar.Prelude.{
  ℕ, Text, Bool, true, false, Option, none, some, ◌||◌, if◌then◌else◌, ◌≡◌,
}
use painfree_ebics_middlewar.Orders.Rows.{OrderState, same_state, OrderRow, Action, Store}
use painfree_ebics_middlewar.Orders.Queue.Outcomes.{update_order, recorded}

-- `REPLAYABLE`.
unfoldable pub is_replayable : OrderState → Bool
unfolding same_state
is_replayable state = same_state state OrderState.failed || same_state state OrderState.rejected

unfoldable pub replayed_values : ℕ → OrderRow → OrderRow
replayed_values now o = record o {
  state = OrderState.accepted;
  worker_id = none;
  claimed_at = none;
  next_attempt_at = none;
  attempts = 0;
  transaction_id = none;
  updated_at = now;
}

-- What `replay` raises: `get` on an unknown order, and the conflict.
pub data ReplayError : Type 0 where
  order_not_found : ReplayError
  not_replayable : (state : OrderState) → ReplayError

pub data Replayed : Type 0 where
  replayed : Replayed
  refused_replay : ReplayError → Replayed

abbrev pub replay_found : Text → ℕ → Store → Option OrderRow → Replayed × Store
replay_found id now s none = (refused_replay order_not_found, s)
replay_found id now s (some o) =
    if is_replayable o.state
    then (
      replayed,
      recorded Action.payment_replay_requested true id none
          (update_order id (replayed_values now) s),
    )
    else (refused_replay (not_replayable o.state), s)

-- `replay`: `get` reads the row on a connection of its own, and the `UPDATE` goes by the id alone. What
-- was seen may be older than the tables that are written.
unfoldable pub replay :
    (order_id : Text) → (seen : Option OrderRow) → (now : ℕ) → Store → Replayed × Store
replay id seen now s = replay_found id now s seen

-- The row that was seen makes `replay` raise.
abbrev pub IsRefused : Option OrderRow → Type 0
IsRefused none = Unit
IsRefused (some o) = is_replayable o.state ≡ false
