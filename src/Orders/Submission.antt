-- ===== src/Orders/Submission.antt =====
-- The insert of a submitted order, and the answer to a key that was used before: `_find`, `_insert`
-- and `_replay` of `OrderStore` in painfree/orders.py.
use painfree_ebics_middlewar.Prelude.{
  ℕ, suc, ◌==◌, max, Text, text_eq, Bool, true, false, not, ◌&&◌, ◌||◌, any, Option, none, some,
  List, [], ◌∷◌, ◌++◌, if◌then◌else◌,
}
use painfree_ebics_middlewar.Orders.Rows.{OrderState, OrderRow, AttemptRow, Action, Store}

-- `Submission`, or the `ConflictError`.
pub data SubmitResult : Type 0 where
  submission : (order : OrderRow) → (replayed : Bool) → SubmitResult
  could_not_be_recorded : SubmitResult
  key_reused : (order_id : Text) → (state : OrderState) → SubmitResult

abbrev pub has_key : (connection_id idempotency_key : Text) → OrderRow → Bool
has_key connection_id idempotency_key o =
    text_eq o.connection_id connection_id && text_eq o.idempotency_key idempotency_key

-- `_find`.
unfoldable pub find_key : (connection_id idempotency_key : Text) → List OrderRow → Option OrderRow
find_key connection_id idempotency_key [] = none
find_key connection_id idempotency_key (o ∷ os) =
    if has_key connection_id idempotency_key o
    then some o
    else find_key connection_id idempotency_key os

abbrev pub logged : Action → Bool → OrderRow → Option OrderState → Store → Store
logged action success o state s = record s {
  audit =
      s.audit
      ++ (record {
        action = action;
        success = success;
        order_id = some o.order_id;
        connection_id = some o.connection_id;
        idempotency_key = some o.idempotency_key;
        order_state = state;
      }
          ∷ []);
}

-- `_replay`; the id is unique, so the fingerprint is the one of the row itself.
unfoldable pub replay_submission : OrderRow → (digest : Text) → Store → SubmitResult × Store
replay_submission existing digest s =
    if not (text_eq existing.request_fingerprint digest)
    then (
      key_reused existing.order_id existing.state,
      logged Action.payment_conflict false existing none s,
    )
    else (
      submission existing true,
      logged Action.payment_replayed true existing (some existing.state) s,
    )

-- The constraints of `payment_order`: what a new row may not share with a row.
abbrev pub order_clash : OrderRow → OrderRow → Bool
order_clash new o =
    has_key new.connection_id new.idempotency_key o
    || text_eq o.order_id new.order_id
    || text_eq o.msg_id new.msg_id

-- The constraints of `payment_attempt`.
abbrev pub attempt_clash : AttemptRow → AttemptRow → Bool
attempt_clash new a =
    text_eq a.attempt_id new.attempt_id
    || text_eq a.msg_id new.msg_id
    || (text_eq a.order_id new.order_id && a.attempt_no == new.attempt_no)

-- The rows of a batch, one after the other; `none` is the `IntegrityError`.
unfoldable pub insert_attempts : List AttemptRow → List AttemptRow → Option (List AttemptRow)
insert_attempts [] rows = some rows
insert_attempts (a ∷ more) rows =
    let rest = insert_attempts more (rows ++ (a ∷ [])) in
    if any (attempt_clash a) rows then none else rest

-- The number that the table gives to a new row.
unfoldable pub next_seq : List OrderRow → ℕ
next_seq [] = 1
next_seq (o ∷ os) = max (suc o.seq) (next_seq os)

abbrev pub inserted : OrderRow → List OrderRow → OrderRow
inserted row orders = record row { seq = next_seq orders }

-- Both inserts in one transaction.
abbrev pub both_inserted : OrderRow → Option (List AttemptRow) → Store → Option Store
both_inserted row none s = none
both_inserted row (some attempts) s =
    if any (order_clash row) s.orders
    then none
    else some (record s { orders = s.orders ++ (inserted row s.orders ∷ []); attempts = attempts })

abbrev pub after_clash : Text → Option OrderRow → Store → SubmitResult × Store
after_clash digest none s = (could_not_be_recorded, s)
after_clash digest (some existing) s = replay_submission existing digest s

abbrev pub after_insert : OrderRow → Store → Option Store → SubmitResult × Store
after_insert row s none =
    after_clash row.request_fingerprint (find_key row.connection_id row.idempotency_key s.orders) s
after_insert row s (some s') = (
  submission (inserted row s.orders) false,
  logged Action.payment_accepted true (inserted row s.orders) none s',
)

-- `_insert`, of a row and its attempts.
unfoldable pub insert : OrderRow → List AttemptRow → Store → SubmitResult × Store
insert row attempts s =
    after_insert row s (both_inserted row (insert_attempts attempts s.attempts) s)
