-- ===== src/Webhooks/Head.antt =====
-- What a claim takes: the head of what a live subscription is owed. painfree/dispatcher.py.
use mathlib.Core.List.{Memᴰ}
use painfree_ebics_middlewar.Prelude.{
  ℕ, ◌-◌, ◌<◌, ◌≤◌, ==_iff, lt→ltb, leb, Text, text_eq_iff, text_eq→eq, Bool, true, false, not,
  ◌&&◌, any, any-false, any-Memᴰ, Bool-cases, is_none, is_some, Option, none, some, List, [], ◌∷◌,
  All, map-All, All-Memᴰ, Distinct-only, first, update_where, first-select_where, ◌≡◌, refl, subst,
  sym, ◌∙◌, ◌⊎◌, inl, inr, arith,
}
use painfree_ebics_middlewar.Webhooks.Rows.{
  DeliveryState, same_delivery_state, DeliveryRow, SubscriptionRow, Hooks, is_subscription,
}
use painfree_ebics_middlewar.Webhooks.Dispatch.{
  is_owed, is_live, is_ahead, is_deliverable, can_claim, least_seq, lesser, has_number,
  claimed_values, take_numbered, claim_delivery,
}
use painfree_ebics_middlewar.Webhooks.Tables.{IsOver, ParkedRight, InOrder}

-- The row that passes with the least number.
abbrev pub Least : (DeliveryRow → Bool) → List DeliveryRow → Option ℕ → Type 0
Least can rows none = All (λ x. can x ≡ false) rows
Least can rows (some n) =
    (d : DeliveryRow) × Memᴰ d rows
    × (can d ≡ true)
    × (d.seq ≡ n)
    × All (λ x. can x ≡ true → n ≤ x.seq) rows

passes_not : (b : Bool) → b ≡ false → b ≡ true → ⊥
passes_not b e f = cc

least_seq-Least :
    (can : DeliveryRow → Bool) (rows : List DeliveryRow) → Least can rows (least_seq can rows)
unfolding least_seq
least_seq-Least can [] = tt
least_seq-Least can (d ∷ ds) = elim (Bool-cases (can d)) [
  | inl e ↦ rw e (here (least_seq can ds) (least_seq-Least can ds) e)
  | inr e ↦ rw e (behind (least_seq can ds) (least_seq-Least can ds) e)
]
  where
    here :
        (rest : Option ℕ)
        → Least can ds rest
        → can d ≡ true
        → Least can (d ∷ ds) (some (lesser d.seq rest))
    here none h e = (
      d,
      Memᴰ.head refl,
      e,
      refl,
      (λ _. omega arith, map-All (λ x fails holds. absurd (passes_not (can x) fails holds)) ds h),
    )
    here (some n) (x, m, can_x, is_n, least) e = elim (Bool-cases (leb d.seq n)) [
      | inl small ↦ (
        d,
        Memᴰ.head refl,
        e,
        ground arith,
        (λ _. omega arith, map-All (λ y bound holds. let b = bound holds in omega arith) ds least),
      )
      | inr large ↦ (
        x,
        Memᴰ.tail m,
        can_x,
        ground arith,
        (λ _. omega arith, map-All (λ y bound holds. let b = bound holds in omega arith) ds least),
      )
    ]

    behind : (rest : Option ℕ) → Least can ds rest → can d ≡ false → Least can (d ∷ ds) rest
    behind none h e = (e, h)
    behind (some n) (x, m, can_x, is_n, least) e =
        (x, Memᴰ.tail m, can_x, is_n, (λ holds. absurd (passes_not (can d) e holds), least))

and_both : (a b : Bool) → a && b ≡ true → (a ≡ true) × (b ≡ true)
and_both true b h = (refl, h)
and_both false b h = cc

not-true : (b : Bool) → not b ≡ true → b ≡ false
not-true true h = cc
not-true false h = refl

-- The subscription of a delivery is there, enabled and not parked.
abbrev pub IsServed : List SubscriptionRow → DeliveryRow → Type 0
IsServed subscriptions d =
    (u : SubscriptionRow) × Memᴰ u subscriptions
    × (u.subscription_id ≡ d.subscription_id)
    × (u.enabled ≡ true)
    × (u.parked_at ≡ none)

is_none-none : (o : Option ℕ) → is_none o ≡ true → o ≡ none
is_none-none none h = refl
is_none-none (some n) h = cc

is_live-IsServed :
    (subscriptions : List SubscriptionRow) (d : DeliveryRow)
    → is_live subscriptions d ≡ true
    → IsServed subscriptions d
is_live-IsServed subscriptions d h =
    let (u, m, e) =
      any-Memᴰ (λ u. is_subscription d.subscription_id u && u.enabled && is_none u.parked_at)
        subscriptions h in
    let (named, free) =
      and_both (is_subscription d.subscription_id u && u.enabled) (is_none u.parked_at) e in
    let (is_it, enabled) = and_both (is_subscription d.subscription_id u) u.enabled named in
    (
      u,
      m,
      text_eq→eq u.subscription_id d.subscription_id is_it,
      enabled,
      is_none-none u.parked_at free,
    )

not_owed :
    (state : DeliveryState) → is_owed state ≡ false → IsOver state ⊎ (state ≡ DeliveryState.parked)
unfolding is_owed same_delivery_state
not_owed DeliveryState.pending h = cc
not_owed DeliveryState.delivering h = cc
not_owed DeliveryState.delivered h = inl (inl refl)
not_owed DeliveryState.failed h = inl (inr refl)
not_owed DeliveryState.parked h = inr refl

-- Everything in front of a row, for its subscription, is over.
abbrev pub IsHead : List DeliveryRow → DeliveryRow → Type 0
IsHead rows d =
    (x : DeliveryRow)
    → Memᴰ x rows
    → x.subscription_id ≡ d.subscription_id
    → x.seq < d.seq
    → IsOver x.state

not_ahead-is_owed :
    (d x : DeliveryRow)
    → is_ahead d x ≡ false
    → x.subscription_id ≡ d.subscription_id
    → x.seq < d.seq
    → is_owed x.state ≡ false
not_ahead-is_owed d x h same first =
    rw ((text_eq_iff x.subscription_id d.subscription_id).1 same, lt→ltb x.seq d.seq first) at h

can_claim-IsHead :
    (now expired : ℕ) (s : Hooks) (d : DeliveryRow)
    → ParkedRight s.deliveries s.subscriptions
    → can_claim now expired s d ≡ true
    → IsHead s.deliveries d × IsServed s.subscriptions d × (is_deliverable now expired d ≡ true)
can_claim-IsHead now expired s d parked h =
    let (ready, free) =
      and_both (is_deliverable now expired d && is_live s.subscriptions d)
        (not (any (is_ahead d) s.deliveries)) h in
    let (due, live) = and_both (is_deliverable now expired d) (is_live s.subscriptions d) ready in
    let served = is_live-IsServed s.subscriptions d live in
    let nothing =
      any-false (is_ahead d) s.deliveries (not-true (any (is_ahead d) s.deliveries) free) in
    (
      λ x m same first. over served x m same (
          not_owed x.state (
            not_ahead-is_owed d x (All-Memᴰ (λ y. is_ahead d y ≡ false) s.deliveries nothing m) same
              first)),
      served,
      due,
    )
  where
    over :
        IsServed s.subscriptions d
        → (x : DeliveryRow) → Memᴰ x s.deliveries
        → x.subscription_id ≡ d.subscription_id
        → IsOver x.state ⊎ (x.state ≡ DeliveryState.parked)
        → IsOver x.state
    over served x m same (inl done) = done
    over (u, mu, named, enabled, free) x m same (inr held) =
        let at : is_some u.parked_at ≡ true = parked x u m mu held (named ∙ sym same) in
        let no : false ≡ true = rw free at at in cc

-- A claim takes nothing and changes nothing, and then no row can be claimed; or it takes the row with the
-- least number of those that can be, and changes no other.
abbrev pub Takes : Text → (now lease : ℕ) → Hooks → Option DeliveryRow × Hooks → Type 0
Takes worker now lease s (none, t) =
    (t ≡ s) × All (λ x. can_claim now (now - lease) s x ≡ false) s.deliveries
Takes worker now lease s (some c, t) =
    (d : DeliveryRow) × Memᴰ d s.deliveries
    × (c ≡ claimed_values worker now d)
    × (t ≡ record s {
      deliveries = update_where (has_number d.seq) (claimed_values worker now) s.deliveries;
    })
    × IsHead s.deliveries d
    × IsServed s.subscriptions d
    × (is_deliverable now (now - lease) d ≡ true)
    × All (λ x. can_claim now (now - lease) s x ≡ true → d.seq ≤ x.seq) s.deliveries

-- In tables that are in order, a claim that takes a delivery takes one that is due, or whose lease lapsed,
-- of a subscription that is enabled and not parked, such that every earlier delivery of this subscription
-- is over: delivered or given up, and none of them waits, is under way, or is parked. It is the oldest
-- that can be claimed, and no other delivery changes. A claim that takes nothing changes nothing, and no
-- delivery could be claimed.
pub claim_delivery-Takes :
    (worker : Text) (now lease : ℕ) (s : Hooks)
    → InOrder s
    → Takes worker now lease s (claim_delivery worker now lease s)
unfolding claim_delivery
claim_delivery-Takes worker now lease s w =
    take (least_seq (can_claim now (now - lease) s) s.deliveries)
      (least_seq-Least (can_claim now (now - lease) s) s.deliveries)
  where
    taken :
        (d : DeliveryRow)
        → Memᴰ d s.deliveries
        → can_claim now (now - lease) s d ≡ true
        → All (λ x. can_claim now (now - lease) s x ≡ true → d.seq ≤ x.seq) s.deliveries
        → Takes worker now lease s (take_numbered worker now s (some d.seq))
    taken d m can_d least =
        let (head, served, due) = can_claim-IsHead now (now - lease) s d w.parked can_d in
        let it =
          first-select_where (has_number d.seq) s.deliveries
            (map-All (λ x only e. only ((==_iff x.seq d.seq).0 e)) s.deliveries
              (Distinct-only (λ x. x.seq) s.deliveries w.distinct_seq m))
            m ((==_iff d.seq d.seq).1 refl) in
        rw it (d, m, refl, refl, head, served, due, least)

    take :
        (found : Option ℕ)
        → Least (can_claim now (now - lease) s) s.deliveries found
        → Takes worker now lease s (take_numbered worker now s found)
    take none h = (refl, h)
    take (some n) (d, m, can_d, is_n, least) =
        subst (λ k. Takes worker now lease s (take_numbered worker now s (some k))) is_n
          (taken d m can_d (
            subst (λ k. All (λ x. can_claim now (now - lease) s x ≡ true → k ≤ x.seq) s.deliveries)
              (sym is_n) least))
