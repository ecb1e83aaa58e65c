-- ===== src/Orders/Queue.antt =====
-- `OrderQueue` of painfree/queue.py: claiming an order, and recording how its upload went.
pub mod Outcomes
pub mod Claim
pub mod Fallback
use painfree_ebics_middlewar.Prelude.{
  ℕ, zero, suc, ◌+◌, ◌-◌, ◌*◌, min, Text, text, is_space, Bool, true, false, ◌&&◌, ◌||◌, leb, ltb,
  is_some, ◌==◌, is_none, text_eq, Option, none, some, List, [], ◌∷◌, ◌++◌, map, length, take,
  get_elem?, first, update_where, select_where, if◌then◌else◌,
}
use painfree_ebics_middlewar.Schemes.Profiles.{
  PaymentScheme, same_scheme, SchemeProfiles, refuses_instant,
}
use painfree_ebics_middlewar.Orders.Rows.{
  OrderState, same_state, OrderRow, AttemptState, same_attempt_state, AttemptRow, Action,
  AuditEvent, Store, is_order, option_is, find_order, is_attempt, one,
}

abbrev pub seconds : ℕ → ℕ
seconds n = n * 1000000

-- `CLAIM_LEASE`.
abbrev pub claim_lease : ℕ
claim_lease = seconds 900

-- `MAX_ATTEMPTS`.
abbrev pub max_attempts : ℕ
max_attempts = 5

-- `BACKOFF`.
abbrev pub backoff_table : List ℕ
backoff_table = seconds 30 ∷ seconds 120 ∷ seconds 600 ∷ seconds 1800 ∷ []

-- `MAX_ERROR_LENGTH`.
abbrev pub max_error_length : ℕ
max_error_length = 512

-- `BACKOFF[index]`; the index is in range.
abbrev pub wait_at : List ℕ → ℕ → ℕ
wait_at [] index = 0
wait_at (w ∷ ws) zero = w
wait_at (w ∷ ws) (suc index) = wait_at ws index

unfoldable pub backoff : ℕ → ℕ
backoff attempts = wait_at backoff_table (min attempts (length backoff_table) - 1)

-- `str.split` at runs of white space, then `" ".join`: a space is due before the next character if a
-- word has ended, and none before the first word.
unfoldable pub collapse : (started due : Bool) → Text → Text
collapse started due [] = []
collapse started due (c ∷ s) =
    let skipped = collapse started true s in
    let kept = collapse true false s in
    if is_space c then skipped else if started && due then 32 ∷ c ∷ kept else c ∷ kept

-- `_short`.
unfoldable pub short : Text → Text
unfolding collapse
short reason =
    let r = collapse false false reason in
    if leb (length r) max_error_length then r else take (max_error_length - 1) r ++ (8230 ∷ [])

-- `ClaimedOrder`.
pub record ClaimedOrder : Type 0 where
  pub order : OrderRow
  pub worker_id : Text
  pub attempts : ℕ
  pub claimed_at : ℕ
  pub reopens : Bool

-- The conditions of `_candidate`.
abbrev due : Option ℕ → ℕ → Bool
due none now = true
due (some t) now = leb t now

abbrev lapsed : Option ℕ → ℕ → Bool
lapsed none expired = false
lapsed (some t) expired = ltb t expired

unfoldable pub is_candidate : (now expired : ℕ) → OrderRow → Bool
unfolding same_state
is_candidate now expired o =
    (same_state o.state OrderState.accepted && due o.next_attempt_at now)
    || (same_state o.state OrderState.submitting && lapsed o.claimed_at expired)

abbrev lesser : ℕ → Option ℕ → ℕ
lesser a none = a
lesser a (some b) = min a b

-- `_candidate`: the least `seq` of a row that can be claimed.
unfoldable pub candidate : (now expired : ℕ) → List OrderRow → Option ℕ
candidate now expired [] = none
candidate now expired (o ∷ os) =
    let rest = candidate now expired os in
    if is_candidate now expired o then some (lesser o.seq rest) else rest

abbrev pub has_seq : ℕ → OrderRow → Bool
has_seq n o = o.seq == n

-- The values that a claim writes.
unfoldable pub taken_by : Text → ℕ → OrderRow → OrderRow
taken_by worker now o = record o {
  state = OrderState.submitting;
  worker_id = some worker;
  claimed_at = some now;
  attempts = o.attempts + 1;
  updated_at = now;
}

abbrev pub claimed_row : Text → ℕ → OrderRow → ClaimedOrder
claimed_row worker now row = record {
  order = row;
  worker_id = worker;
  attempts = row.attempts;
  claimed_at = now;
  reopens = is_some row.transaction_id;
}

abbrev pub claimed_of : Text → ℕ → Option OrderRow → Option ClaimedOrder
claimed_of worker now none = none
claimed_of worker now (some o) = some (claimed_row worker now (taken_by worker now o))

-- The `UPDATE` of the candidate, and its `RETURNING`.
abbrev pub take_candidate : Text → ℕ → Store → Option ℕ → Option ClaimedOrder × Store
take_candidate worker now s none = (none, s)
take_candidate worker now s (some n) = (
  claimed_of worker now (first (select_where (has_seq n) s.orders)),
  record s { orders = update_where (has_seq n) (taken_by worker now) s.orders },
)

unfoldable pub claim : (worker : Text) → (now lease : ℕ) → Store → Option ClaimedOrder × Store
claim worker now lease s = take_candidate worker now s (candidate now (now - lease) s.orders)
