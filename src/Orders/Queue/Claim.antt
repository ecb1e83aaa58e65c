-- ===== src/Orders/Queue/Claim.antt =====
-- What `claim` of painfree/queue.py takes.
use mathlib.Core.List.{Memᴰ}
use painfree_ebics_middlewar.Prelude.{
  ℕ, ◌+◌, ◌-◌, is_some, ◌≤◌, leb, leb→le, ==_iff, subst, Text, true, false, Bool-cases, Option,
  none, some, List, [], ◌∷◌, All, map-All, first, select_where, update_where, Distinct,
  Distinct-only, first-select_where, ◌≡◌, refl, inl, inr, arith,
}
use painfree_ebics_middlewar.Orders.Rows.{OrderState, OrderRow, Store}
use painfree_ebics_middlewar.Orders.Queue.{
  is_candidate, candidate, lesser, has_seq, taken_by, take_candidate, ClaimedOrder, claim,
}

module _ (now expired : ℕ) where
  -- What the query for the candidate returns: nothing if no row qualifies, or else the least number.
  abbrev pub Oldest : List OrderRow → OrderRow → Type 0
  Oldest rows o =
      Memᴰ o rows
      × (is_candidate now expired o ≡ true)
      × All (λ x. is_candidate now expired x ≡ true → o.seq ≤ x.seq) rows

  abbrev pub Selected : List OrderRow → Option ℕ → Type 0
  Selected rows none = All (λ x. is_candidate now expired x ≡ false) rows
  Selected rows (some n) = (o : OrderRow) × Oldest rows o × (o.seq ≡ n)

  candidate_first :
      (x : OrderRow) (xs : List OrderRow) (rest : Option ℕ)
      → is_candidate now expired x ≡ true
      → Selected xs rest
      → Selected (x ∷ xs) (some (lesser x.seq rest))
  candidate_first x xs none e h =
      (x, (Memᴰ.head refl, e, ((λ _. omega arith), map-All (λ y no yes. cc) xs h)), refl)
  candidate_first x xs (some n) e (o, (m, c, least), same) = elim (Bool-cases (leb x.seq n)) [
    | inl le ↦
        let smaller = leb→le x.seq n le in
        (
          x,
          (
            Memᴰ.head refl,
            e,
            ((λ _. omega arith), map-All (λ y above yes. omega (arith, above yes)) xs least),
          ),
          omega arith,
        )
    | inr gt ↦
        let larger : n ≤ x.seq = ground arith in
        (o, (Memᴰ.tail m, c, ((λ _. omega arith), least)), omega arith)
  ]

  pub candidate-Selected : (rows : List OrderRow) → Selected rows (candidate now expired rows)
  unfolding candidate
  candidate-Selected [] = tt
  candidate-Selected (x ∷ xs) = elim (Bool-cases (is_candidate now expired x)) [
    | inl e ↦ rw e (candidate_first x xs (candidate now expired xs) e (candidate-Selected xs))
    | inr e ↦ rw e (candidate_later x xs (candidate now expired xs) e (candidate-Selected xs))
  ]
    where
      candidate_later :
          (x : OrderRow) (xs : List OrderRow) (rest : Option ℕ)
          → is_candidate now expired x ≡ false
          → Selected xs rest
          → Selected (x ∷ xs) rest
      candidate_later x xs none e h = (e, h)
      candidate_later x xs (some n) e (o, (m, c, least), same) =
          (o, (Memᴰ.tail m, c, ((λ yes. cc), least)), same)

-- The row of a claimed order, column by column.
abbrev pub held_row : Text → ℕ → OrderRow → OrderRow
held_row worker now o = record o {
  state = OrderState.submitting;
  worker_id = some worker;
  claimed_at = some now;
  attempts = o.attempts + 1;
  updated_at = now;
}

-- What `claim` returns and leaves.
abbrev pub Took : Text → ℕ → ℕ → Store → Option ClaimedOrder × Store → Type 0
Took worker now lease s (none, s') =
    (s' ≡ s) × All (λ x. is_candidate now (now - lease) x ≡ false) s.orders
Took worker now lease s (some c, s') =
    (o : OrderRow) × Oldest now (now - lease) s.orders o
    × All (λ x. x.seq ≡ o.seq → x ≡ o) s.orders
    × (s' ≡ record s { orders = update_where (has_seq o.seq) (held_row worker now) s.orders })
    × (c.order ≡ held_row worker now o)
    × (c.worker_id ≡ worker)
    × (c.attempts ≡ o.attempts + 1)
    × (c.claimed_at ≡ now)
    × (c.reopens ≡ is_some o.transaction_id)

take_seq-Took :
    (worker : Text) (now lease : ℕ) (s : Store) (o : OrderRow)
    → Distinct (λ o. o.seq) s.orders
    → Oldest now (now - lease) s.orders o
    → Took worker now lease s (take_candidate worker now s (some o.seq))
unfolding taken_by
take_seq-Took worker now lease s o d oldest =
    let only = Distinct-only (λ x. x.seq) s.orders d oldest.0 in
    let found : first (select_where (has_seq o.seq) s.orders) ≡ some o =
      first-select_where (has_seq o.seq) s.orders
        (map-All (λ x unique passes. unique ((==_iff x.seq o.seq).0 passes)) s.orders only) oldest.0
        ((==_iff o.seq o.seq).1 refl) in
    rw found (o, oldest, only, refl, refl, refl, refl, refl, refl)

take_candidate-Took :
    (worker : Text) (now lease : ℕ) (s : Store) (found : Option ℕ)
    → Distinct (λ o. o.seq) s.orders
    → Selected now (now - lease) s.orders found
    → Took worker now lease s (take_candidate worker now s found)
take_candidate-Took worker now lease s none d h = (refl, h)
take_candidate-Took worker now lease s (some n) d (o, oldest, same) =
    subst (λ k. Took worker now lease s (take_candidate worker now s (some k))) same
      (take_seq-Took worker now lease s o d oldest)

-- A claim takes the row with the least number among those that can be claimed, and no other row
-- changes: the row is then `submitting`, held by this worker since now, with one attempt more and all
-- its other columns as before. The claim carries this row, and says that a transaction was open before
-- exactly if the row names one. If no row can be claimed, nothing changes. The numbers of the rows are different from each other.
pub claim-Took :
    (worker : Text) (now lease : ℕ) (s : Store)
    → Distinct (λ o. o.seq) s.orders
    → Took worker now lease s (claim worker now lease s)
unfolding claim
claim-Took worker now lease s d =
    take_candidate-Took worker now lease s (candidate now (now - lease) s.orders) d
      (candidate-Selected now (now - lease) s.orders)
