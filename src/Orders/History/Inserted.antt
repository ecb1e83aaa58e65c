-- ===== src/Orders/History/Inserted.antt =====
-- The insert of an order keeps the tables well-formed: `_insert` in painfree/orders.py.

use painfree_ebics_middlewar.Prelude.{
  ℕ, ◌<◌, Text, text_eq, text_eq_iff, text_eq_differs, Bool, true, false, ◌&&◌, Bool-cases, any,
  any-false, Option, none, some, List, [], ◌∷◌, ◌++◌, All, map-All, All-append, select_where,
  select_where-append, zip-All, Distinct-added, ◌≡◌, ◌≢◌, refl, sym, subst, ap, ◌∙◌, inl, inr,
  arith,
}
use painfree_ebics_middlewar.Orders.Rows.{
  OrderState, OrderRow, AttemptState, AttemptRow, Action, Store, is_attempt,
}
use painfree_ebics_middlewar.Orders.Submission.{
  has_key, replay_submission, logged, order_clash, insert_attempts, next_seq, inserted,
  both_inserted, after_clash, after_insert, insert,
}
use painfree_ebics_middlewar.Orders.History.WellFormed.{
  IsHeldRight, live_attempts, IsLiveRight, WellFormed,
}
use painfree_ebics_middlewar.Orders.History.Changes.{audit-WellFormed}
use painfree_ebics_middlewar.Orders.History.Accepted.{
  key_of, HasUniqueKeys, IsBuilt, below_next_seq, insert_attempts_rows, insert_attempts-Distinct,
}

-- The tables are well-formed, and keys are unique.
abbrev pub HasGoodTables : Store → Type 0
HasGoodTables s = WellFormed s × HasUniqueKeys s

no_attempts_of :
    (id : Text) (rows : List AttemptRow)
    → All (λ a. a.order_id ≢ id) rows
    → live_attempts id rows ≡ []
unfolding select_where
no_attempts_of id [] h = refl
no_attempts_of id (a ∷ rows) h = rw (text_eq_differs a.order_id id h.0) (no_attempts_of id rows h.1)

other_row :
    (row o : OrderRow)
    → order_clash row o ≡ false
    → (o.order_id ≢ row.order_id) × (key_of o ≢ key_of row)
other_row row o apart =
    let f : text_eq o.order_id row.order_id ≡ false = ground arith in
    let g : has_key row.connection_id row.idempotency_key o ≡ false = ground arith in
    (
      λ same. let e = (text_eq_iff o.order_id row.order_id).1 same in cc,
      λ same.
          let e = (text_eq_iff o.connection_id row.connection_id).1 (ap (λ k. k.0) same) in
          let e' = (text_eq_iff o.idempotency_key row.idempotency_key).1 (ap (λ k. k.1) same) in
          clash (text_eq o.connection_id row.connection_id)
            (text_eq o.idempotency_key row.idempotency_key) e e' g,
    )
  where
    clash : (a b : Bool) → a ≡ true → b ≡ true → (a && b) ≡ false → ⊥
    clash a b ea eb h = ground arith

module _ (row : OrderRow) (attempts : List AttemptRow) (s : Store) (built : IsBuilt row attempts)
    (fresh : All (λ a. a.order_id ≢ row.order_id) s.attempts) (good : HasGoodTables s) where
  -- The rows in front keep their live attempts, since the new ones are of another order.
  live_kept :
      (o : OrderRow)
      → o.order_id ≢ row.order_id
      → IsLiveRight s.attempts o
      → IsLiveRight (s.attempts ++ attempts) o
  live_kept o differs (a, alone, carries) = (
    a,
    select_where-append (is_attempt o.order_id AttemptState.live) s.attempts attempts
        ∙ ap (λ xs. live_attempts o.order_id s.attempts ++ xs)
            (no_attempts_of o.order_id attempts
              (map-All (λ x same other. differs (sym other ∙ same)) attempts built.of_order))
        ∙ ap (λ xs. xs ++ []) alone,
    carries,
  )

  live_new : IsLiveRight (s.attempts ++ attempts) (inserted row s.orders)
  live_new =
      let (a, alone, carries) = built.one_live in
      (
        a,
        select_where-append (is_attempt row.order_id AttemptState.live) s.attempts attempts
            ∙ ap (λ xs. xs ++ live_attempts row.order_id attempts)
                (no_attempts_of row.order_id s.attempts fresh)
            ∙ alone,
        carries,
      )

  held_new : IsHeldRight (inserted row s.orders)
  held_new = rw (built.is_accepted, built.no_worker, built.no_claim) (refl, refl)

  with_rows :
      (after : List AttemptRow)
      → insert_attempts attempts s.attempts ≡ some after
      → any (order_clash row) s.orders ≡ false
      → HasGoodTables
          (record s { orders = s.orders ++ (inserted row s.orders ∷ []); attempts = after })
  with_rows after e apart =
      let others =
        map-All (λ o h. other_row row o h) s.orders (any-false (order_clash row) s.orders apart) in
      let w = good.0 in
      (
        record {
          distinct_seq =
              Distinct-added (λ o. o.seq) s.orders (inserted row s.orders) w.distinct_seq
                (map-All (λ o small. differs_of_lt o.seq (next_seq s.orders) small) s.orders
                  (below_next_seq s.orders));
          distinct_order =
              Distinct-added (λ o. o.order_id) s.orders (inserted row s.orders) w.distinct_order
                (map-All (λ o h. h.0) s.orders others);
          distinct_attempt =
              insert_attempts-Distinct attempts s.attempts after e w.distinct_attempt;
          held = All-append IsHeldRight s.orders (inserted row s.orders ∷ []) w.held (held_new, tt);
          live =
              subst (λ rows. All (IsLiveRight rows) (s.orders ++ (inserted row s.orders ∷ [])))
                (sym (insert_attempts_rows attempts s.attempts after e))
                (All-append (IsLiveRight (s.attempts ++ attempts)) s.orders
                  (inserted row s.orders ∷ [])
                  (map-All (λ o h. live_kept o h.0.0 h.1) s.orders
                    (zip-All _ _ s.orders others w.live))
                  (live_new, tt));
        },
        Distinct-added key_of s.orders (inserted row s.orders) good.1
            (map-All (λ o h. h.1) s.orders others),
      )
    where
      differs_of_lt : (a b : ℕ) → a < b → a ≢ b
      differs_of_lt a b small same = omega arith

logged-HasGoodTables :
    (action : Action) (success : Bool) (o : OrderRow) (state : Option OrderState) (s : Store)
    → HasGoodTables s
    → HasGoodTables (logged action success o state s)
logged-HasGoodTables action success o state s good = (audit-WellFormed s _ good.0, good.1)

replay_submission-HasGoodTables :
    (o : OrderRow) (digest : Text) (s : Store)
    → HasGoodTables s
    → HasGoodTables (replay_submission o digest s).1
unfolding replay_submission
replay_submission-HasGoodTables o digest s good =
    elim (Bool-cases (text_eq o.request_fingerprint digest)) [
      | inl e ↦ rw e (logged-HasGoodTables Action.payment_replayed true o (some o.state) s good)
      | inr e ↦ rw e (logged-HasGoodTables Action.payment_conflict false o none s good)
    ]

-- The insert of an order with its attempts keeps the tables well-formed and the keys unique, whether it
-- inserts, answers a key that was used before, or fails: the order is accepted, nobody holds it, it has
-- one live attempt, which carries its message, and no attempt of its id was there before.
pub insert-HasGoodTables :
    (row : OrderRow) (attempts : List AttemptRow) (s : Store)
    → IsBuilt row attempts
    → All (λ a. a.order_id ≢ row.order_id) s.attempts
    → HasGoodTables s
    → HasGoodTables (insert row attempts s).1
unfolding insert
insert-HasGoodTables row attempts s built fresh good =
    rows (insert_attempts attempts s.attempts) refl
  where
    clashed :
        (found : Option OrderRow) → HasGoodTables (after_clash row.request_fingerprint found s).1
    clashed none = good
    clashed (some existing) =
        replay_submission-HasGoodTables existing row.request_fingerprint s good

    rows :
        (after : Option (List AttemptRow))
        → insert_attempts attempts s.attempts ≡ after
        → HasGoodTables (after_insert row s (both_inserted row after s)).1
    rows none e = clashed _
    rows (some after) e = elim (Bool-cases (any (order_clash row) s.orders)) [
      | inl h ↦ rw h (clashed _)
      | inr h ↦ rw h (
          logged-HasGoodTables Action.payment_accepted true (inserted row s.orders) none
            (record s { orders = s.orders ++ (inserted row s.orders ∷ []); attempts = after })
            (with_rows row attempts s built fresh good after e h))
    ]
