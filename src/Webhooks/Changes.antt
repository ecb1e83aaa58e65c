-- ===== src/Webhooks/Changes.antt =====
-- The changes that a dispatcher and an operator make keep the deliveries in order.
use mathlib.Core.List.{Memᴰ}
use painfree_ebics_middlewar.Prelude.{
  ℕ, ◌-◌, ◌<◌, ==_iff, Text, Bool, true, false, is_some, Option, none, some, List, All-Memᴰ,
  Distinct-only, Distinct-update_where, update_where, ◌≡◌, ◌≢◌, refl, subst, sym, ap, ◌∙◌, inl, inr,
}
use painfree_ebics_middlewar.Webhooks.Rows.{
  DeliveryState, same_delivery_state, DeliveryRow, SubscriptionRow, Hooks, is_delivery,
}
use painfree_ebics_middlewar.Webhooks.Dispatch.{
  is_deliverable, has_number, claimed_values, claim_delivery,
}
use painfree_ebics_middlewar.Webhooks.Finish.{settle_delivery}
use painfree_ebics_middlewar.Webhooks.Tables.{
  IsOver, SameParking, SameParking-refl, InOrder, IsOrderly, orderly-OnWire, orderly-ParkedRight,
}
use painfree_ebics_middlewar.Webhooks.Head.{Takes, IsHead, claim_delivery-Takes}

-- An `UPDATE` of deliveries that parks nothing.
pub orderly-InOrder :
    (s : Hooks) (p : DeliveryRow → Bool) (f : DeliveryRow → DeliveryRow)
    (after : List SubscriptionRow)
    → IsOrderly s.deliveries p f
    → ((x : DeliveryRow) → p x ≡ true → (f x).state ≢ DeliveryState.parked)
    → SameParking s.subscriptions after
    → InOrder s
    → InOrder (record { deliveries = update_where p f s.deliveries; subscriptions = after })
orderly-InOrder s p f after h never same w = record {
  distinct_seq = Distinct-update_where (λ d. d.seq) p f h.keeps_seq s.deliveries w.distinct_seq;
  on_wire = orderly-OnWire s.deliveries p f h w.on_wire;
  parked = orderly-ParkedRight s.deliveries p f s.subscriptions after h never same w.parked;
}

-- A change of subscriptions alone.
pub parking-InOrder :
    (s : Hooks) (after : List SubscriptionRow)
    → SameParking s.subscriptions after
    → InOrder s
    → InOrder (record s { subscriptions = after })
parking-InOrder s after same w = record {
  distinct_seq = w.distinct_seq;
  on_wire = w.on_wire;
  parked = λ d u md mu is_parked named.
      let (v, n, id, at) = same u mu in
      ap is_some at ∙ w.parked d v md n is_parked (sym id ∙ named);
}

-- What can be claimed is not over.
deliverable-over :
    (now expired : ℕ) (d : DeliveryRow) → is_deliverable now expired d ≡ true → IsOver d.state → ⊥
unfolding is_deliverable same_delivery_state
deliverable-over now expired d h (inl e) = let no : false ≡ true = rw e at h in cc
deliverable-over now expired d h (inr e) = let no : false ≡ true = rw e at h in cc

claimed_values-IsOrderly :
    (s : Hooks) (worker : Text) (now expired : ℕ) (d : DeliveryRow)
    → InOrder s
    → Memᴰ d s.deliveries
    → IsHead s.deliveries d
    → is_deliverable now expired d ≡ true
    → IsOrderly s.deliveries (has_number d.seq) (claimed_values worker now)
unfolding claimed_values
claimed_values-IsOrderly s worker now expired d w m head due = record {
  keeps_seq = λ x. refl;
  keeps_subscription = λ x. refl;
  reopens_nothing = λ x n e over. absurd (
      deliverable-over now expired d due
        (subst (λ (y : DeliveryRow). IsOver y.state) (same x n e) over));
  starts_first = λ c x mc mx e _ named before.
      let is_it = same c mc e in
      head x mx (named ∙ ap (λ (y : DeliveryRow). y.subscription_id) is_it)
        (subst (λ (y : DeliveryRow). x.seq < y.seq) is_it before);
}
  where
    same : (x : DeliveryRow) → Memᴰ x s.deliveries → has_number d.seq x ≡ true → x ≡ d
    same x n e =
        All-Memᴰ (λ y. y.seq ≡ d.seq → y ≡ d) s.deliveries
          (Distinct-only (λ y. y.seq) s.deliveries w.distinct_seq m) n ((==_iff x.seq d.seq).0 e)

claimed_values-parked :
    (worker : Text) (now : ℕ) (x : DeliveryRow)
    → (claimed_values worker now x).state ≢ DeliveryState.parked
unfolding claimed_values
claimed_values-parked worker now x e = cc

pub claim_delivery-InOrder :
    (worker : Text) (now lease : ℕ) (s : Hooks)
    → InOrder s
    → InOrder (claim_delivery worker now lease s).1
claim_delivery-InOrder worker now lease s w =
    go (claim_delivery worker now lease s) (claim_delivery-Takes worker now lease s w)
  where
    go : (r : Option DeliveryRow × Hooks) → Takes worker now lease s r → InOrder r.1
    go (none, t) (same, nothing) = subst InOrder (sym same) w
    go (some c, t) (d, m, is_c, same, head, served, due, least) = subst InOrder (sym same) (
        orderly-InOrder s (has_number d.seq) (claimed_values worker now) s.subscriptions
          (claimed_values-IsOrderly s worker now (now - lease) d w m head due)
          (λ x _. claimed_values-parked worker now x) (SameParking-refl s.subscriptions) w)

-- `_settle` with a state that is neither on the wire nor parked.
pub settle_delivery-InOrder :
    (id : Text) (values : DeliveryRow → DeliveryRow) (state : DeliveryState) (s : Hooks)
    → ((x : DeliveryRow) → (values x).seq ≡ x.seq)
    → ((x : DeliveryRow) → (values x).subscription_id ≡ x.subscription_id)
    → ((x : DeliveryRow) → (values x).state ≡ state)
    → state ≢ DeliveryState.delivering
    → state ≢ DeliveryState.parked
    → ((x : DeliveryRow)
        → Memᴰ x s.deliveries
        → is_delivery id x ≡ true
        → IsOver x.state
        → IsOver state)
    → InOrder s
    → InOrder (settle_delivery id values s)
unfolding settle_delivery
settle_delivery-InOrder id values state s seq subscription sets not_sent not_parked over w =
    orderly-InOrder s (is_delivery id) _ s.subscriptions
      (record {
        keeps_seq = seq;
        keeps_subscription = subscription;
        reopens_nothing = λ x m e done. subst IsOver (sym (sets x)) (over x m e done);
        starts_first = λ d x md mx e sends. absurd (not_sent (sym (sets d) ∙ sends));
      })
      (λ x _ e. not_parked (sym (sets x) ∙ e)) (SameParking-refl s.subscriptions) w
