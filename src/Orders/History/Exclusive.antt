-- ===== src/Orders/History/Exclusive.antt =====
-- One order and two workers: painfree/queue.py.
use mathlib.Core.List.{Memᴰ}
use painfree_ebics_middlewar.Prelude.{
  ℕ, ◌+◌, ◌-◌, ◌≤◌, ==_iff, Text, true, false, Option, none, some, List, All, map-All, All-Memᴰ,
  Distinct, Distinct-only, Memᴰ-changed, ◌≡◌, ◌≢◌, ◌⊎◌, refl, sym, subst, ap, ◌∙◌, inl, arith,
}
use painfree_ebics_middlewar.Orders.Rows.{OrderState, same_state, OrderRow, Store}
use painfree_ebics_middlewar.Orders.Queue.{is_candidate, has_seq, ClaimedOrder, claim_lease, claim}
use painfree_ebics_middlewar.Orders.Queue.Claim.{held_row, Took, claim-Took}
use painfree_ebics_middlewar.Orders.Replay.{IsRefused}
use painfree_ebics_middlewar.Orders.History.{Event, claims, opens, delivers, replays, reports, run}
use painfree_ebics_middlewar.Orders.History.WellFormed.{WellFormed}
use painfree_ebics_middlewar.Orders.History.Reachable.{claim-WellFormed, run-WellFormed}
use painfree_ebics_middlewar.Orders.History.Keeps.{Leaves, run-kept}

-- Within the lease of a claim, an event that is not the claiming worker's own.
abbrev pub Foreign : Text → (claimed_at : ℕ) → Event → Type 0
Foreign id t (claims worker now) = now ≤ t + claim_lease
Foreign id t (opens other transaction_id bank_order_id now) = id ≢ other
Foreign id t (delivers profiles claimed end now) = id ≢ claimed.order.order_id
Foreign id t (replays other seen now) = (id ≢ other) ⊎ IsRefused seen
Foreign id t (reports connection_id other report now) = Unit

within_lease :
    (o : OrderRow) (t now lease : ℕ)
    → o.state ≡ OrderState.submitting
    → o.claimed_at ≡ some t
    → now ≤ t + lease
    → is_candidate now (now - lease) o ≡ false
unfolding is_candidate same_state
within_lease o t now lease submitting held early = rw (submitting, held) (ground arith)

Foreign-Leaves :
    (o : OrderRow) (t : ℕ) (e : Event)
    → o.state ≡ OrderState.submitting
    → o.claimed_at ≡ some t
    → Foreign o.order_id t e
    → Leaves o e
Foreign-Leaves o t (claims worker now) submitting held h =
    within_lease o t now claim_lease submitting held h
Foreign-Leaves o t (opens other transaction_id bank_order_id now) submitting held h = h
Foreign-Leaves o t (delivers profiles claimed end now) submitting held h = h
Foreign-Leaves o t (replays other seen now) submitting held h = h
Foreign-Leaves o t (reports connection_id other report now) submitting held h = inl submitting

some_injective : (a b : ClaimedOrder) → Option.some a ≡ some b → a ≡ b
some_injective a b e = cc

-- What a claim returns is a row of the table behind it, held by the worker since then.
claimed-Memᴰ :
    (worker : Text) (now lease : ℕ) (s : Store) (c : ClaimedOrder)
    → Distinct (λ o. o.seq) s.orders
    → (claim worker now lease s).0 ≡ some c
    → Memᴰ c.order (claim worker now lease s).1.orders
      × (c.order.state ≡ OrderState.submitting)
      × (c.order.claimed_at ≡ some now)
claimed-Memᴰ worker now lease s c d h =
    go (claim worker now lease s) (claim-Took worker now lease s d) h
  where
    go :
        (r : Option ClaimedOrder × Store)
        → Took worker now lease s r
        → r.0 ≡ some c
        → Memᴰ c.order r.1.orders
          × (c.order.state ≡ OrderState.submitting)
          × (c.order.claimed_at ≡ some now)
    go (none, s') k e = cc
    go (some c', s') (o, oldest, only, after, is_row, by, tries, since, names) e =
        let same : c'.order ≡ c.order = ap (λ x. x.order) (some_injective c' c e) in
        subst
          (λ (x : OrderRow).
            Memᴰ x s'.orders × (x.state ≡ OrderState.submitting) × (x.claimed_at ≡ some now))
          (sym is_row ∙ same)
          (
            rw after (
                Memᴰ-changed (has_seq o.seq) (held_row worker now) s.orders oldest.0
                  ((==_iff o.seq o.seq).1 refl)),
            refl,
            refl,
          )

-- A claim takes a row that can be claimed.
claimed_candidate :
    (worker : Text) (now lease : ℕ) (s : Store) (c : ClaimedOrder)
    → Distinct (λ o. o.seq) s.orders
    → (claim worker now lease s).0 ≡ some c
    → (o : OrderRow) × Memᴰ o s.orders
      × (is_candidate now (now - lease) o ≡ true)
      × (o.order_id ≡ c.order.order_id)
claimed_candidate worker now lease s c d h =
    go (claim worker now lease s) (claim-Took worker now lease s d) h
  where
    go :
        (r : Option ClaimedOrder × Store)
        → Took worker now lease s r
        → r.0 ≡ some c
        → (o : OrderRow) × Memᴰ o s.orders
          × (is_candidate now (now - lease) o ≡ true)
          × (o.order_id ≡ c.order.order_id)
    go (none, s') k e = cc
    go (some c', s') (o, oldest, only, after, is_row, by, tries, since, names) e = (
      o,
      oldest.0,
      oldest.1,
      ap (λ x. x.order_id) (sym is_row ∙ ap (λ x. x.order) (some_injective c' c e)),
    )

-- In well-formed tables, no two claims within the lease take the same order: whatever happens between
-- them, as long as nothing is written to the order's row in the name of its id, and no claim comes
-- later than the lease after the first one. Status reports on the order may arrive, and a replay of it
-- may be tried if the row that it saw, at whatever time, makes it raise; a replay that saw the order in a
-- state that can be replayed is excluded, also if it saw it before the first claim.
pub claim_exclusive :
    (schema_failures : Text → List Text) (datetime_utc : Text → Option ℕ) (first second : Text)
    (t now : ℕ) (events : List Event) (s : Store) (c d : ClaimedOrder)
    → WellFormed s
    → (claim first t claim_lease s).0 ≡ some c
    → All (Foreign c.order.order_id t) events
    → now ≤ t + claim_lease
    → (claim second now claim_lease
        (run schema_failures datetime_utc events (claim first t claim_lease s).1)).0
      ≡ some d
    → d.order.order_id ≢ c.order.order_id
claim_exclusive schema_failures datetime_utc first second t now events s c d w h foreign early k
      same =
    let s1 = (claim first t claim_lease s).1 in
    let w1 = claim-WellFormed first t claim_lease s w in
    let (m, submitting, held) = claimed-Memᴰ first t claim_lease s c w.distinct_seq h in
    let leaves = map-All (λ e f. Foreign-Leaves c.order t e submitting held f) events foreign in
    let still = run-kept schema_failures datetime_utc events c.order s1 w1 m leaves in
    let w2 = run-WellFormed schema_failures datetime_utc events s1 w1 in
    let (o, mo, can, id) =
      claimed_candidate second now claim_lease (run schema_failures datetime_utc events s1) d
        w2.distinct_seq k in
    let is_it : o ≡ c.order =
      All-Memᴰ (λ x. x.order_id ≡ c.order.order_id → x ≡ c.order)
        (run schema_failures datetime_utc events s1).orders
        (Distinct-only (λ x. x.order_id) (run schema_failures datetime_utc events s1).orders
          w2.distinct_order still)
        mo (id ∙ same) in
    let cannot = within_lease c.order t now claim_lease submitting held early in
    let can' : is_candidate now (now - claim_lease) c.order ≡ true =
      subst (λ x. is_candidate now (now - claim_lease) x ≡ true) is_it can in
    cc
