-- ===== src/Webhooks/Parking.antt =====
-- Parking a subscription, and bringing it back, keep the deliveries in order.

use painfree_ebics_middlewar.Prelude.{
  ℕ, Text, text_eq, text_eq→eq, text_eq_iff, Bool, true, false, ◌&&◌, Bool-cases, is_none, is_some,
  ltb, Option, none, some, List, update_where, first, select_where, Memᴰ-updated, ◌≡◌, ◌≢◌, refl,
  subst, sym, ap, ◌∙◌, inl, inr,
}
use painfree_ebics_middlewar.Webhooks.Rows.{
  DeliveryState, same_delivery_state, DeliveryRow, SubscriptionRow, Hooks, is_subscription,
}
use painfree_ebics_middlewar.Webhooks.Finish.{
  park, count_failure, subscription_failed, subscription_succeeded, failures_of, park_after,
}
use painfree_ebics_middlewar.Webhooks.Manage.{resume, set_enabled, set_found, found_subscription}
use painfree_ebics_middlewar.Webhooks.Tables.{
  IsOver, ParkedRight, update_where-SameParking, InOrder, IsOrderly, orderly-OnWire,
}
use painfree_ebics_middlewar.Webhooks.Changes.{parking-InOrder}
use painfree_ebics_middlewar.Prelude.{Distinct-update_where}

both_true : (a b : Bool) → a && b ≡ true → (a ≡ true) × (b ≡ true)
both_true true b h = (refl, h)
both_true false b h = cc

state_is : (state other : DeliveryState) → same_delivery_state state other ≡ true → state ≡ other
unfolding same_delivery_state
state_is DeliveryState.pending DeliveryState.pending h = refl
state_is DeliveryState.delivering DeliveryState.delivering h = refl
state_is DeliveryState.delivered DeliveryState.delivered h = refl
state_is DeliveryState.failed DeliveryState.failed h = refl
state_is DeliveryState.parked DeliveryState.parked h = refl
state_is _ _ h = cc

same_delivery_state_refl : (state : DeliveryState) → same_delivery_state state state ≡ true
unfolding same_delivery_state
same_delivery_state_refl DeliveryState.pending = refl
same_delivery_state_refl DeliveryState.delivering = refl
same_delivery_state_refl DeliveryState.delivered = refl
same_delivery_state_refl DeliveryState.failed = refl
same_delivery_state_refl DeliveryState.parked = refl

-- A change of the rows of one subscription in one state to another state.
module _ (rows : List DeliveryRow) (id : Text) (from to : DeliveryState)
    (f : DeliveryRow → DeliveryRow) (seq : (x : DeliveryRow) → (f x).seq ≡ x.seq)
    (subscription : (x : DeliveryRow) → (f x).subscription_id ≡ x.subscription_id)
    (sets : (x : DeliveryRow) → (f x).state ≡ to) (not_over : IsOver from → ⊥)
    (not_sent : to ≢ DeliveryState.delivering) where
  abbrev reached : DeliveryRow → Bool
  reached d = text_eq d.subscription_id id && same_delivery_state d.state from

  moved-IsOrderly : IsOrderly rows reached f
  moved-IsOrderly = record {
    keeps_seq = seq;
    keeps_subscription = subscription;
    reopens_nothing = λ x m e over.
        let is_from =
          state_is x.state from
            (both_true (text_eq x.subscription_id id) (same_delivery_state x.state from) e).1 in
        absurd (not_over (subst IsOver is_from over));
    starts_first = λ d x md mx e sends. absurd (not_sent (sym (sets d) ∙ sends));
  }

-- An optional instant that is there.
not_none : (o : Option ℕ) → is_none o ≡ false → is_some o ≡ true
not_none none h = cc
not_none (some n) h = refl

pending-over : IsOver DeliveryState.pending → ⊥
pending-over (inl e) = cc
pending-over (inr e) = cc

parked-over : IsOver DeliveryState.parked → ⊥
parked-over (inl e) = cc
parked-over (inr e) = cc

parked-delivering : DeliveryState.parked ≢ DeliveryState.delivering
parked-delivering e = cc

pending-delivering : DeliveryState.pending ≢ DeliveryState.delivering
pending-delivering e = cc

pending-parked : DeliveryState.pending ≢ DeliveryState.parked
pending-parked e = cc

module _ (id : Text) (now : ℕ) (s : Hooks) where
  -- Of a subscription that the update for this id leaves alone.
  left_alone :
      (u : SubscriptionRow)
      → u.subscription_id ≡ id
      → is_subscription id u && is_none u.parked_at ≡ false
      → is_some u.parked_at ≡ true
  left_alone u named h = not_none u.parked_at (rw ((text_eq_iff u.subscription_id id).1 named) at h)

  park-ParkedRight :
      InOrder s → ParkedRight (park id now s).deliveries (park id now s).subscriptions
  park-ParkedRight w d u md mu is_parked named =
      let (d0, m0, how_d) = Memᴰ-updated _ _ s.deliveries md in
      let (u0, n0, how_u) = Memᴰ-updated _ _ s.subscriptions mu in
      elim how_u [
        | inl (parks, e) ↦ ap (λ (y : SubscriptionRow). is_some y.parked_at) e
        | inr (kept, e) ↦
            let named0 = ap (λ (y : SubscriptionRow). y.subscription_id) (sym e) ∙ named in
            ap (λ (y : SubscriptionRow). is_some y.parked_at) e ∙ elim how_d [
              | inl (parks, f) ↦
                  let (of_id, waits) = both_true (text_eq d0.subscription_id id) _ parks in
                  left_alone u0
                    (named0
                      ∙ ap (λ (y : DeliveryRow). y.subscription_id) f
                      ∙ text_eq→eq d0.subscription_id id of_id)
                    kept
              | inr (stays, f) ↦
                  w.parked d0 u0 m0 n0 (ap (λ (y : DeliveryRow). y.state) (sym f) ∙ is_parked)
                    (named0 ∙ ap (λ (y : DeliveryRow). y.subscription_id) f)
            ]
      ]

  pub park-InOrder : InOrder s → InOrder (park id now s)
  park-InOrder w = record {
    distinct_seq = Distinct-update_where (λ d. d.seq) _ _ (λ x. refl) s.deliveries w.distinct_seq;
    on_wire =
        orderly-OnWire s.deliveries _ _
          (moved-IsOrderly s.deliveries id DeliveryState.pending DeliveryState.parked _ (λ x. refl)
            (λ x. refl) (λ x. refl) pending-over parked-delivering)
          w.on_wire;
    parked = park-ParkedRight w;
  }

  -- A delivery that is still parked belongs to another subscription than the one that comes back.
  resume-ParkedRight :
      InOrder s → ParkedRight (resume id now s).deliveries (resume id now s).subscriptions
  unfolding resume
  resume-ParkedRight w d u md mu is_parked named =
      let (d0, m0, how_d) = Memᴰ-updated _ _ s.deliveries md in
      let (u0, n0, how_u) = Memᴰ-updated _ _ s.subscriptions mu in
      elim how_d [
        | inl (comes, f) ↦
            absurd (pending-parked (ap (λ (y : DeliveryRow). y.state) (sym f) ∙ is_parked))
        | inr (stays, f) ↦
            let is_parked0 = ap (λ (y : DeliveryRow). y.state) (sym f) ∙ is_parked in
            let sub = ap (λ (y : DeliveryRow). y.subscription_id) f in
            elim how_u [
              | inl (comes, e) ↦
                  let here =
                    sym (
                      ap (λ (y : SubscriptionRow). y.subscription_id) e
                      ∙ text_eq→eq u0.subscription_id id comes)
                    ∙ named
                    ∙ sub in
                  absurd (not_resumed d0 (sym here) is_parked0 stays)
              | inr (kept, e) ↦
                  ap (λ (y : SubscriptionRow). is_some y.parked_at) e
                  ∙ w.parked d0 u0 m0 n0 is_parked0
                      (ap (λ (y : SubscriptionRow). y.subscription_id) (sym e) ∙ named ∙ sub)
            ]
      ]
    where
      not_resumed :
          (d0 : DeliveryRow)
          → d0.subscription_id ≡ id
          → d0.state ≡ DeliveryState.parked
          → text_eq d0.subscription_id id && same_delivery_state d0.state DeliveryState.parked
            ≡ false
          → ⊥
      not_resumed d0 same held h =
          let no : true ≡ false =
            rw
              (
                (text_eq_iff d0.subscription_id id).1 same,
                held,
                same_delivery_state_refl DeliveryState.parked,
              )
              at h in
          cc

  pub resume-InOrder : InOrder s → InOrder (resume id now s)
  unfolding resume
  resume-InOrder w = record {
    distinct_seq = Distinct-update_where (λ d. d.seq) _ _ (λ x. refl) s.deliveries w.distinct_seq;
    on_wire =
        orderly-OnWire s.deliveries _ _
          (moved-IsOrderly s.deliveries id DeliveryState.parked DeliveryState.pending _ (λ x. refl)
            (λ x. refl) (λ x. refl) parked-over pending-delivering)
          w.on_wire;
    parked = resume-ParkedRight w;
  }

  pub subscription_succeeded-InOrder :
      (status : ℕ) → InOrder s → InOrder (subscription_succeeded id status now s)
  unfolding subscription_succeeded
  subscription_succeeded-InOrder status w =
      parking-InOrder s _
        (update_where-SameParking (is_subscription id) _ s.subscriptions (λ u. refl) (λ u. refl)) w

  pub set_enabled-InOrder : (enabled : Bool) → InOrder s → InOrder (set_enabled id enabled now s).1
  unfolding set_enabled
  set_enabled-InOrder enabled w = go (found_subscription id s)
    where
      go : (u : Option SubscriptionRow) → InOrder (set_found enabled id now s u).1
      go none = w
      go (some u) =
          parking-InOrder s _
            (update_where-SameParking (is_subscription id) _ s.subscriptions (λ v. refl)
              (λ v. refl))
            w

-- Counting a failure, and parking at the third.
pub subscription_failed-InOrder :
    (id : Text) (status : Option ℕ) (reason : Text) (now : ℕ) (s : Hooks)
    → InOrder s
    → InOrder (subscription_failed id status reason now s)
unfolding subscription_failed
subscription_failed-InOrder id status reason now s w =
    let counted =
      update_where (is_subscription id) (count_failure status reason now) s.subscriptions in
    let t = record s { subscriptions = counted } in
    let held =
      parking-InOrder s counted
        (update_where-SameParking (is_subscription id) (count_failure status reason now)
          s.subscriptions (λ u. refl) (λ u. refl))
        w in
    elim (Bool-cases
      (ltb (failures_of (first (select_where (is_subscription id) counted))) park_after)) [
        | inl e ↦ rw e held
        | inr e ↦ rw e (park-InOrder id now t held)
      ]
