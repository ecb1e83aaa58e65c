-- ===== src/Orders/History/Accepted.antt =====
-- What the insert of an order does to the tables: painfree/orders.py.
use mathlib.Core.List.{Memᴰ, append-nil, append_assoc}
use painfree_ebics_middlewar.Prelude.{
  ◌<◌, Text, text_eq, text_eq_refl, text_eq_iff, text_eq→eq, true, false, Bool-cases, any,
  any-false, any_of_Memᴰ, Option, none, some, List, [], ◌∷◌, ◌++◌, All, map-All, All-Memᴰ, Distinct,
  Distinct-added, if◌then◌else◌, ◌≡◌, ◌≢◌, refl, sym, subst, ap, ◌∙◌, inl, inr, arith,
}
use painfree_ebics_middlewar.Orders.Rows.{OrderState, OrderRow, AttemptRow, Store}
use painfree_ebics_middlewar.Orders.Submission.{
  SubmitResult, submission, key_reused, has_key, find_key, replay_submission, order_clash,
  attempt_clash, insert_attempts, next_seq, both_inserted, insert,
}
use painfree_ebics_middlewar.Orders.History.WellFormed.{Carries, live_attempts}

abbrev pub key_of : OrderRow → Text × Text
key_of o = (o.connection_id, o.idempotency_key)

-- No two orders of a connection have the same key.
abbrev pub HasUniqueKeys : Store → Type 0
HasUniqueKeys s = Distinct key_of s.orders

-- A row and attempts as `_build` makes them: accepted, with nobody holding it, and one live attempt that
-- carries the row's message.
pub record IsBuilt (row : OrderRow) (attempts : List AttemptRow) : Type 0 where
  pub is_accepted : row.state ≡ OrderState.accepted
  pub no_worker : row.worker_id ≡ none
  pub no_claim : row.claimed_at ≡ none
  pub of_order : All (λ a. a.order_id ≡ row.order_id) attempts
  pub one_live : (a : AttemptRow) × (live_attempts row.order_id attempts ≡ a ∷ []) × Carries row a

pub below_next_seq : (rows : List OrderRow) → All (λ o. o.seq < next_seq rows) rows
unfolding next_seq
below_next_seq [] = tt
below_next_seq (o ∷ os) =
    (omega arith, map-All (λ x small. omega (arith, small)) os (below_next_seq os))

some_rows : {a b : List AttemptRow} → Option.some a ≡ some b → a ≡ b
some_rows e = cc

no_rows : {b : List AttemptRow} → Option.none ≡ some b → ⊥
no_rows e = cc

other_attempt : (a x : AttemptRow) → attempt_clash a x ≡ false → x.attempt_id ≢ a.attempt_id
other_attempt a x apart same =
    let e = (text_eq_iff x.attempt_id a.attempt_id).1 same in
    let f : text_eq x.attempt_id a.attempt_id ≡ false = ground arith in cc

pub insert_attempts_rows :
    (new rows after : List AttemptRow) → insert_attempts new rows ≡ some after → after ≡ rows ++ new
unfolding insert_attempts
insert_attempts_rows [] rows after h = sym (some_rows h) ∙ sym (append-nil rows)
insert_attempts_rows (a ∷ more) rows after h = elim (Bool-cases (any (attempt_clash a) rows)) [
  | inl e ↦ absurd (no_rows (rw e at h))
  | inr e ↦
      insert_attempts_rows more (rows ++ (a ∷ [])) after (rw e at h)
      ∙ append_assoc rows (a ∷ []) more
]

pub insert_attempts-Distinct :
    (new rows after : List AttemptRow)
    → insert_attempts new rows ≡ some after
    → Distinct (λ a. a.attempt_id) rows
    → Distinct (λ a. a.attempt_id) after
unfolding insert_attempts
insert_attempts-Distinct [] rows after h d = subst (Distinct (λ a. a.attempt_id)) (some_rows h) d
insert_attempts-Distinct (a ∷ more) rows after h d =
    elim (Bool-cases (any (attempt_clash a) rows)) [
      | inl e ↦ absurd (no_rows (rw e at h))
      | inr e ↦ insert_attempts-Distinct more (rows ++ (a ∷ [])) after (rw e at h) (
          Distinct-added (λ x. x.attempt_id) rows a d
            (map-All (λ x apart. other_attempt a x apart) rows
              (any-false (attempt_clash a) rows e)))
    ]

own_key : (o : OrderRow) → has_key o.connection_id o.idempotency_key o ≡ true
own_key o = rw (text_eq_refl o.connection_id, text_eq_refl o.idempotency_key) refl

same_key :
    (o x : OrderRow) → has_key o.connection_id o.idempotency_key x ≡ true → key_of x ≡ key_of o
same_key o x h =
    let a : x.connection_id ≡ o.connection_id =
      text_eq→eq x.connection_id o.connection_id (ground arith) in
    let b : x.idempotency_key ≡ o.idempotency_key =
      text_eq→eq x.idempotency_key o.idempotency_key (ground arith) in
    cc

-- A key that was used before: the row that has it is found.
find_key_only :
    (o : OrderRow) (rows : List OrderRow)
    → Distinct key_of rows
    → Memᴰ o rows
    → find_key o.connection_id o.idempotency_key rows ≡ some o
unfolding find_key
find_key_only o [] d m = elim m [ ]
find_key_only o (x ∷ xs) d (Memᴰ.head same) =
    let here : has_key o.connection_id o.idempotency_key x ≡ true =
      subst (λ y. has_key o.connection_id o.idempotency_key y ≡ true) same (own_key o) in
    rw here (ap some (sym same))
find_key_only o (x ∷ xs) d (Memᴰ.tail m) =
    elim (Bool-cases (has_key o.connection_id o.idempotency_key x)) [
      | inl here ↦ absurd (All-Memᴰ (λ y. key_of y ≢ key_of x) xs d.0 m (sym (same_key o x here)))
      | inr other ↦ rw other (find_key_only o xs d.1 m)
    ]

-- What a key that was used before gets.
abbrev Repeated : OrderRow → Text → Store → SubmitResult × Store → Type 0
Repeated o digest s (result, s') =
    (result ≡ (
      if text_eq o.request_fingerprint digest
      then submission o true
      else key_reused o.order_id o.state))
    × (s'.orders ≡ s.orders)
    × (s'.attempts ≡ s.attempts)

replay_submission-Repeated :
    (o : OrderRow) (digest : Text) (s : Store) → Repeated o digest s (replay_submission o digest s)
unfolding replay_submission
replay_submission-Repeated o digest s = elim (Bool-cases (text_eq o.request_fingerprint digest)) [
  | inl e ↦ rw e (refl, refl, refl)
  | inr e ↦ rw e (refl, refl, refl)
]

both_inserted-none :
    (row : OrderRow) (after : Option (List AttemptRow)) (s : Store)
    → any (order_clash row) s.orders ≡ true
    → both_inserted row after s ≡ none
both_inserted-none row none s h = refl
both_inserted-none row (some after) s h = rw h refl

-- A second order with a key that a connection has used is not inserted: no row of an order or an
-- attempt is added or changed, and the answer is the order as it stands now if the fingerprints are
-- the same, and else the conflict with its id and state. The keys of each connection are unique.
pub insert-Repeated :
    (o row : OrderRow) (attempts : List AttemptRow) (s : Store)
    → HasUniqueKeys s
    → Memᴰ o s.orders
    → row.connection_id ≡ o.connection_id
    → row.idempotency_key ≡ o.idempotency_key
    → Repeated o row.request_fingerprint s (insert row attempts s)
unfolding insert
insert-Repeated o row attempts s unique m same_connection same_idempotency_key =
    let clash : order_clash row o ≡ true =
      rw
        (
          same_connection,
          same_idempotency_key,
          text_eq_refl o.connection_id,
          text_eq_refl o.idempotency_key,
        )
        refl in
    let found : find_key row.connection_id row.idempotency_key s.orders ≡ some o =
      rw (same_connection, same_idempotency_key) (find_key_only o s.orders unique m) in
    rw
      (
        both_inserted-none row (insert_attempts attempts s.attempts) s
            (any_of_Memᴰ (order_clash row) s.orders m clash),
        found,
      )
      (replay_submission-Repeated o row.request_fingerprint s)
