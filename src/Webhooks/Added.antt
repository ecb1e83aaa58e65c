-- ===== src/Webhooks/Added.antt =====
-- New deliveries stand behind all others: `fan_out` and `enqueue_ping` of painfree/webhooks.py.
use mathlib.Core.List.{Memᴰ}
use painfree_ebics_middlewar.Prelude.{
  ℕ, suc, ◌≤◌, Text, not, any, is_some, Bool-cases, Option, none, some, List, [], ◌∷◌, ◌++◌,
  All-of_Memᴰ, Distinct-added, ◌≡◌, ◌≢◌, refl, subst, sym, ap, ◌∙◌, ◌⊎◌, inl, inr, arith,
}
use painfree_ebics_middlewar.Webhooks.Rows.{
  DeliveryState, DeliveryRow, SubscriptionRow, Hooks, greatest_seq,
}
use painfree_ebics_middlewar.Webhooks.FanOut.{
  AuditedEvent, event_type_of, live_subscriptions, delivery_row, clash, insert_deliveries,
  inserted_or_not, fan_out_type, fan_out,
}
use painfree_ebics_middlewar.Webhooks.Manage.{enqueue_ping, ping_found, found_subscription}
use painfree_ebics_middlewar.Webhooks.Tables.{OnWire, ParkedRight, InOrder}

Memᴰ-split :
    (xs : List DeliveryRow) (y : DeliveryRow) {x : DeliveryRow}
    → Memᴰ x (xs ++ (y ∷ []))
    → Memᴰ x xs ⊎ (x ≡ y)
Memᴰ-split [] y (Memᴰ.head e) = inr e
Memᴰ-split [] y (Memᴰ.tail m) = elim m [ ]
Memᴰ-split (z ∷ zs) y (Memᴰ.head e) = inl (Memᴰ.head e)
Memᴰ-split (z ∷ zs) y (Memᴰ.tail m) = elim (Memᴰ-split zs y m) [
  | inl n ↦ inl (Memᴰ.tail n)
  | inr e ↦ inr e
]

greatest_seq-le :
    (rows : List DeliveryRow) {d : DeliveryRow} → Memᴰ d rows → d.seq ≤ greatest_seq rows
greatest_seq-le [] m = elim m [ ]
greatest_seq-le (x ∷ xs) (Memᴰ.head e) = let same = ap (λ (y : DeliveryRow). y.seq) e in omega arith
greatest_seq-le (x ∷ xs) (Memᴰ.tail m) = let below = greatest_seq-le xs m in omega arith

pub added-InOrder :
    (s : Hooks) (new : DeliveryRow)
    → new.seq ≡ suc (greatest_seq s.deliveries)
    → new.state ≡ DeliveryState.pending
    → InOrder s
    → InOrder (record s { deliveries = s.deliveries ++ (new ∷ []) })
added-InOrder s new last waits w = record {
  distinct_seq =
      Distinct-added (λ d. d.seq) s.deliveries new w.distinct_seq
        (All-of_Memᴰ (λ y. y.seq ≢ new.seq) s.deliveries
          (λ y m same. let below = greatest_seq-le s.deliveries m in absurd (omega arith)));
  on_wire = on_wire;
  parked = parked;
}
  where
    on_wire : OnWire (s.deliveries ++ (new ∷ []))
    on_wire d x md mx sends same first = elim (Memᴰ-split s.deliveries new md) [
      | inr e ↦
          let no : DeliveryState.pending ≡ DeliveryState.delivering =
            sym waits ∙ ap (λ (y : DeliveryRow). y.state) (sym e) ∙ sends in
          cc
      | inl m ↦ elim (Memᴰ-split s.deliveries new mx) [
        | inl n ↦ w.on_wire d x m n sends same first
        | inr e ↦
            let below = greatest_seq-le s.deliveries m in
            let seq = ap (λ (y : DeliveryRow). y.seq) e in absurd (omega arith)
      ]
    ]

    parked : ParkedRight (s.deliveries ++ (new ∷ [])) s.subscriptions
    parked d u md mu is_parked same = elim (Memᴰ-split s.deliveries new md) [
      | inl m ↦ w.parked d u m mu is_parked same
      | inr e ↦
          let no : DeliveryState.pending ≡ DeliveryState.parked =
            sym waits ∙ ap (λ (y : DeliveryRow). y.state) (sym e) ∙ is_parked in
          cc
    ]

module _ (ids : Text → Text) (e : AuditedEvent) (now : ℕ) where
  insert_deliveries-InOrder :
      (event_type : Text) (us : List SubscriptionRow) (s : Hooks) {rows : List DeliveryRow}
      → insert_deliveries ids e event_type us now s.deliveries ≡ some rows
      → InOrder s
      → InOrder (record s { deliveries = rows })
  unfolding insert_deliveries
  insert_deliveries-InOrder event_type [] s {rows} h w =
      subst (λ r. InOrder (record s { deliveries = r })) (injective h) w
    where
      injective : Option.some s.deliveries ≡ some rows → s.deliveries ≡ rows
      injective f = cc
  insert_deliveries-InOrder event_type (u ∷ us) s {rows} h w =
      let new =
        delivery_row (suc (greatest_seq s.deliveries)) (ids u.subscription_id) e event_type u now in
      elim (Bool-cases (any (clash new) s.deliveries)) [
        | inl f ↦ let no : none ≡ some rows = rw f at h in cc
        | inr f ↦
            insert_deliveries-InOrder event_type us
              (record s { deliveries = s.deliveries ++ (new ∷ []) }) (rw f at h)
              (added-InOrder s new refl refl w)
      ]

  pub fan_out-InOrder : (s t : Hooks) → fan_out ids e now s ≡ some t → InOrder s → InOrder t
  unfolding fan_out
  fan_out-InOrder s t h w = typed (event_type_of e.action) h
    where
      inserted :
          (event_type : Text) (rows : Option (List DeliveryRow))
          → insert_deliveries ids e event_type
              (live_subscriptions event_type e.connection_id s.subscriptions)
              now
              s.deliveries
            ≡ rows
          → inserted_or_not s rows ≡ some t
          → InOrder t
      inserted event_type none from k = cc
      inserted event_type (some rows) from k = subst InOrder (injective k) (
          insert_deliveries-InOrder event_type
            (live_subscriptions event_type e.connection_id s.subscriptions) s from w)
        where
          injective : {r : Hooks} → Option.some r ≡ some t → r ≡ t
          injective f = cc

      typed : (event_type : Option Text) → fan_out_type ids e now s event_type ≡ some t → InOrder t
      typed none k = subst InOrder (same k) w
        where
          same : Option.some s ≡ some t → s ≡ t
          same f = cc
      typed (some event_type) k = inserted event_type _ refl k

pub enqueue_ping-InOrder :
    (event_id delivery_id body id : Text) (now : ℕ) (s : Hooks)
    → InOrder s
    → InOrder (enqueue_ping event_id delivery_id body id now s).1
unfolding enqueue_ping
enqueue_ping-InOrder event_id delivery_id body id now s w = go (found_subscription id s)
  where
    go : (u : Option SubscriptionRow) → InOrder (ping_found event_id delivery_id body now s u).1
    go none = w
    go (some u) = elim (Bool-cases (is_some u.parked_at)) [
      | inl e ↦ rw e w
      | inr e ↦ elim (Bool-cases (not u.enabled)) [
        | inl f ↦ rw (e, f) w
        | inr f ↦ rw (e, f) (added-InOrder s _ refl refl w)
      ]
    ]
