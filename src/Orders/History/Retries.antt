-- ===== src/Orders/History/Retries.antt =====
-- Trying again, and giving up: `retry_later` and the claim of painfree/queue.py.
use mathlib.Core.List.{Memᴰ}
use painfree_ebics_middlewar.Prelude.{
  ℕ, zero, suc, ◌+◌, ◌-◌, ◌<◌, ◌≤◌, ==_iff, min, leb, le→leb, Text, true, false, length, Option,
  none, some, List, [], ◌∷◌, update_where, update_where_none, if◌then◌else◌, All, map-All, ◌≡◌, ◌↔◌,
  refl, ap, ◌∙◌, arith,
}
use painfree_ebics_middlewar.Orders.Rows.{OrderState, same_state, OrderRow, Store}
use painfree_ebics_middlewar.Orders.Queue.{
  seconds, max_attempts, backoff_table, wait_at, backoff, is_candidate, candidate, has_seq,
  taken_by, claim_lease, claim,
}
use painfree_ebics_middlewar.Orders.Queue.Outcomes.{
  update_order, settled_values, answer_live, recorded, settle, failed_values, deferred_values,
  retry_later,
}
use painfree_ebics_middlewar.Orders.History.{Event, claims, perform, run}
use painfree_ebics_middlewar.Orders.History.Recorded.{updated}

wait_bounds :
    (i : ℕ)
    → i ≤ 3
    → (seconds 30 ≤ wait_at backoff_table i) × (wait_at backoff_table i ≤ seconds 1800)
wait_bounds zero h = (omega arith, omega arith)
wait_bounds (suc zero) h = (omega arith, omega arith)
wait_bounds (suc (suc zero)) h = (omega arith, omega arith)
wait_bounds (suc (suc (suc zero))) h = (omega arith, omega arith)
wait_bounds (suc (suc (suc (suc i)))) h = absurd (omega arith)

backoff_bounds : (n : ℕ) → (seconds 30 ≤ backoff n) × (backoff n ≤ seconds 1800)
unfolding backoff
backoff_bounds n = wait_bounds (min n (length backoff_table) - 1) (omega arith)

-- The order waits in the queue, with its message, until an instant.
abbrev pub IsDeferred : OrderRow → ℕ → Store → Type 0
IsDeferred o due s =
    (row : OrderRow) × Memᴰ row s.orders
    × (row.order_id ≡ o.order_id)
    × (row.msg_id ≡ o.msg_id)
    × (row.document ≡ o.document)
    × (row.state ≡ OrderState.accepted)
    × ((later lease : ℕ) → (is_candidate later (later - lease) row ≡ true) ↔ (due ≤ later))

module _ (o : OrderRow) (s : Store) (m : Memᴰ o s.orders) (id : Text) (same : o.order_id ≡ id) where
  deferred_due :
      (wait : ℕ) (reason : Text) (code report_text : Option Text) (now later lease : ℕ)
      → (is_candidate later (later - lease) (deferred_values wait reason code report_text now o)
          ≡ true)
        ↔ (now + wait ≤ later)
  unfolding deferred_values is_candidate same_state
  deferred_due wait reason code report_text now later lease = (λ h. ground arith, λ h. ground arith)

  deferred :
      (wait : ℕ) (reason : Text) (code report_text : Option Text) (now : ℕ)
      → IsDeferred o
          (now + wait)
          (update_order id (deferred_values wait reason code report_text now) s)
  unfolding deferred_values
  deferred wait reason code report_text now = (
    deferred_values wait reason code report_text now o,
    updated o s m id same (deferred_values wait reason code report_text now),
    refl,
    refl,
    refl,
    refl,
    deferred_due wait reason code report_text now,
  )

  -- Before the fifth attempt has failed, an order that has a row goes back to the queue with the same
  -- message, and can be claimed from the end of its wait on, and not before. A wait is between 30
  -- seconds and half an hour.
  pub retry_later_due :
      (attempts : ℕ) (reason : Text) (code report_text : Option Text) (now : ℕ)
      → attempts < max_attempts
      → IsDeferred o
          (now + backoff attempts)
          (retry_later id attempts reason code report_text now s).1
        × (seconds 30 ≤ backoff attempts)
        × (backoff attempts ≤ seconds 1800)
  unfolding retry_later
  retry_later_due attempts reason code report_text now few =
      let under : leb max_attempts attempts ≡ false = ground arith in
      let (least, most) = backoff_bounds attempts in
      (rw under (deferred (backoff attempts) reason code report_text now), least, most)

  -- From the fifth failed attempt on, an order that has a row is `failed`, and no claim takes this row
  -- at any time.
  pub retry_later_final :
      (attempts : ℕ) (reason : Text) (code report_text : Option Text) (now : ℕ)
      → max_attempts ≤ attempts
      → (row : OrderRow) × Memᴰ row (retry_later id attempts reason code report_text now s).1.orders
        × (row.order_id ≡ o.order_id)
        × (row.state ≡ OrderState.failed)
        × ((later expired : ℕ) → is_candidate later expired row ≡ false)
  unfolding retry_later settle recorded answer_live settled_values failed_values is_candidate
      same_state
  retry_later_final attempts reason code report_text now many =
      rw (le→leb max_attempts attempts many) (
        settled_values OrderState.failed now (failed_values code report_text reason o),
        updated o s m id same
            (λ x. settled_values OrderState.failed now (failed_values code report_text reason x)),
        refl,
        refl,
        λ later expired. refl,
      )

-- One worker that claims each time that the lease of the claim before has lapsed.
abbrev lapses : Text → ℕ → ℕ → List Event
lapses worker zero t = []
lapses worker (suc n) t =
    claims worker (t + claim_lease + 1) ∷ lapses worker n (t + claim_lease + 1)

-- A row that no claim takes, with a number of its own.
abbrev pub NeverClaimed : OrderRow → OrderRow → Type 0
NeverClaimed o x =
    (has_seq o.seq x ≡ false) × ((now expired : ℕ) → is_candidate now expired x ≡ false)

candidate_over :
    (now expired : ℕ) (o : OrderRow) (others : List OrderRow)
    → All (NeverClaimed o) others
    → candidate now expired others ≡ none
unfolding candidate
candidate_over now expired o [] over = refl
candidate_over now expired o (x ∷ xs) over =
    rw (over.0.1 now expired, candidate_over now expired o xs over.1) refl

candidate_alone :
    (now expired : ℕ) (o : OrderRow) (others : List OrderRow)
    → is_candidate now expired o ≡ true
    → All (NeverClaimed o) others
    → candidate now expired (o ∷ others) ≡ some o.seq
unfolding candidate
candidate_alone now expired o others can over =
    rw (can, candidate_over now expired o others over) refl

update_alone :
    (f : OrderRow → OrderRow) (o : OrderRow) (others : List OrderRow)
    → All (NeverClaimed o) others
    → update_where (has_seq o.seq) f (o ∷ others) ≡ f o ∷ others
unfolding update_where
update_alone f o others over =
    ap (λ b. (if b then f o else o) ∷ update_where (has_seq o.seq) f others)
      ((==_iff o.seq o.seq).1 refl)
    ∙ ap (λ rows. f o ∷ rows)
        (update_where_none (has_seq o.seq) f others (map-All (λ x h. h.0) others over))

claim_alone :
    (worker : Text) (now : ℕ) (o : OrderRow) (others : List OrderRow) (s : Store)
    → is_candidate now (now - claim_lease) o ≡ true
    → All (NeverClaimed o) others
    → (claim worker now claim_lease (record s { orders = o ∷ others })).1
      ≡ record s { orders = taken_by worker now o ∷ others }
unfolding claim
claim_alone worker now o others s can over =
    rw (candidate_alone now (now - claim_lease) o others can over)
      (ap (λ rows. record s { orders = rows }) (update_alone (taken_by worker now) o others over))

lapsed_candidate :
    (o : OrderRow) (t : ℕ)
    → o.state ≡ OrderState.submitting
    → o.claimed_at ≡ some t
    → is_candidate (t + claim_lease + 1) (t + claim_lease + 1 - claim_lease) o ≡ true
unfolding is_candidate same_state
lapsed_candidate o t submitting held = rw (submitting, held) (ground arith)

-- The claim counts the attempts of an order and never looks at the count: for an order that is `submitting`
-- and held since some instant, in a table whose other rows have other numbers and states that no claim
-- takes, a worker that claims each time that the lease of the claim before has just lapsed gets the same
-- order again, any number of times, and the order is `submitting` with one attempt more for each.
pub claims_never_end :
    (schema_failures : Text → List Text) (datetime_utc : Text → Option ℕ) (worker : Text) (n t : ℕ)
    (o : OrderRow) (others : List OrderRow) (s : Store)
    → o.state ≡ OrderState.submitting
    → o.claimed_at ≡ some t
    → All (NeverClaimed o) others
    → (row : OrderRow) × ((run schema_failures datetime_utc
          (lapses worker n t)
          (record s { orders = o ∷ others })).orders
        ≡ row ∷ others)
      × (row.order_id ≡ o.order_id)
      × (row.state ≡ OrderState.submitting)
      × (row.attempts ≡ o.attempts + n)
unfolding perform taken_by
claims_never_end schema_failures datetime_utc worker zero t o others s submitting held over =
    (o, refl, refl, submitting, omega arith)
claims_never_end schema_failures datetime_utc worker (suc n) t o others s submitting held over =
    let now = t + claim_lease + 1 in
    let (row, rest, id, state, count) =
      claims_never_end schema_failures datetime_utc worker n now (taken_by worker now o) others s
        refl refl over in
    (
      row,
      ap (λ x. (run schema_failures datetime_utc (lapses worker n now) x).orders)
            (claim_alone worker now o others s (lapsed_candidate o t submitting held) over)
          ∙ rest,
      id,
      state,
      omega (arith, count),
    )
