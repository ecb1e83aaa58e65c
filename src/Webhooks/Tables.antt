-- ===== src/Webhooks/Tables.antt =====
-- What holds of the deliveries at any time, and which changes of the two tables keep it.
use mathlib.Core.List.{Memᴰ}
use painfree_ebics_middlewar.Prelude.{
  ◌<◌, Bool, true, false, is_some, List, Distinct, update_where, Memᴰ-updated, ◌≡◌, ◌≢◌, refl,
  subst, sym, ap, ◌∙◌, ◌⊎◌, inl, inr, arith,
}
use painfree_ebics_middlewar.Webhooks.Rows.{DeliveryState, DeliveryRow, SubscriptionRow, Hooks}

abbrev pub IsOver : DeliveryState → Type 0
IsOver state = (state ≡ DeliveryState.delivered) ⊎ (state ≡ DeliveryState.failed)

-- What stands in front of a delivery that is on the wire, for the same subscription, is over.
abbrev pub OnWire : List DeliveryRow → Type 0
OnWire rows =
    (d x : DeliveryRow)
    → Memᴰ d rows
    → Memᴰ x rows
    → d.state ≡ DeliveryState.delivering
    → x.subscription_id ≡ d.subscription_id
    → x.seq < d.seq
    → IsOver x.state

-- A delivery is parked only while its subscription is.
abbrev pub ParkedRight : List DeliveryRow → List SubscriptionRow → Type 0
ParkedRight rows subscriptions =
    (d : DeliveryRow) (u : SubscriptionRow)
    → Memᴰ d rows
    → Memᴰ u subscriptions
    → d.state ≡ DeliveryState.parked
    → u.subscription_id ≡ d.subscription_id
    → is_some u.parked_at ≡ true

-- A change of the subscriptions that leaves alone which of them are parked.
abbrev pub SameParking : (before after : List SubscriptionRow) → Type 0
SameParking before after =
    (u : SubscriptionRow)
    → Memᴰ u after
    → (v : SubscriptionRow) × Memᴰ v before
      × (u.subscription_id ≡ v.subscription_id)
      × (u.parked_at ≡ v.parked_at)

pub SameParking-refl :
    (subscriptions : List SubscriptionRow) → SameParking subscriptions subscriptions
SameParking-refl subscriptions u m = (u, m, refl, refl)

pub update_where-SameParking :
    (q : SubscriptionRow → Bool) (g : SubscriptionRow → SubscriptionRow)
    (subscriptions : List SubscriptionRow)
    → ((u : SubscriptionRow) → (g u).subscription_id ≡ u.subscription_id)
    → ((u : SubscriptionRow) → (g u).parked_at ≡ u.parked_at)
    → SameParking subscriptions (update_where q g subscriptions)
update_where-SameParking q g subscriptions keeps parks u m =
    let (v, n, how) = Memᴰ-updated q g subscriptions m in (v, n, (place v how).0, (place v how).1)
  where
    place :
        (v : SubscriptionRow)
        → ((q v ≡ true) × (u ≡ g v)) ⊎ ((q v ≡ false) × (u ≡ v))
        → (u.subscription_id ≡ v.subscription_id) × (u.parked_at ≡ v.parked_at)
    place v (inl (changed, e)) = (
      ap (λ (y : SubscriptionRow). y.subscription_id) e ∙ keeps v,
      ap (λ (y : SubscriptionRow). y.parked_at) e ∙ parks v,
    )
    place v (inr (kept, e)) = (
      ap (λ (y : SubscriptionRow). y.subscription_id) e,
      ap (λ (y : SubscriptionRow). y.parked_at) e,
    )

pub record InOrder (s : Hooks) : Type 0 where
  pub distinct_seq : Distinct (λ d. d.seq) s.deliveries
  pub on_wire : OnWire s.deliveries
  pub parked : ParkedRight s.deliveries s.subscriptions

-- A change of deliveries that reopens nothing that is over, and that puts on the wire only what has nothing
-- in front of it.
pub record IsOrderly (rows : List DeliveryRow) (p : DeliveryRow → Bool)
    (f : DeliveryRow → DeliveryRow) : Type 0 where
  pub keeps_seq : (x : DeliveryRow) → (f x).seq ≡ x.seq
  pub keeps_subscription : (x : DeliveryRow) → (f x).subscription_id ≡ x.subscription_id
  pub reopens_nothing :
      (x : DeliveryRow) → Memᴰ x rows → p x ≡ true → IsOver x.state → IsOver (f x).state
  pub starts_first :
      (d x : DeliveryRow)
      → Memᴰ d rows
      → Memᴰ x rows
      → p d ≡ true
      → (f d).state ≡ DeliveryState.delivering
      → x.subscription_id ≡ d.subscription_id
      → x.seq < d.seq
      → IsOver x.state

module _ (rows : List DeliveryRow) (p : DeliveryRow → Bool) (f : DeliveryRow → DeliveryRow) where
  -- A row after the change, and the row that it was.
  abbrev Was : (x x0 : DeliveryRow) → Type 0
  Was x x0 = ((p x0 ≡ true) × (x ≡ f x0)) ⊎ ((p x0 ≡ false) × (x ≡ x0))

  Was-place :
      (x x0 : DeliveryRow)
      → IsOrderly rows p f
      → Was x x0
      → (x.seq ≡ x0.seq) × (x.subscription_id ≡ x0.subscription_id)
  Was-place x x0 h (inl (changed, e)) = (
    ap (λ (y : DeliveryRow). y.seq) e ∙ h.keeps_seq x0,
    ap (λ (y : DeliveryRow). y.subscription_id) e ∙ h.keeps_subscription x0,
  )
  Was-place x x0 h (inr (kept, e)) =
      (ap (λ (y : DeliveryRow). y.seq) e, ap (λ (y : DeliveryRow). y.subscription_id) e)

  Was-IsOver :
      (x x0 : DeliveryRow)
      → IsOrderly rows p f
      → Memᴰ x0 rows
      → Was x x0
      → IsOver x0.state
      → IsOver x.state
  Was-IsOver x x0 h m (inl (changed, e)) over =
      subst (λ (y : DeliveryRow). IsOver y.state) (sym e) (h.reopens_nothing x0 m changed over)
  Was-IsOver x x0 h m (inr (kept, e)) over =
      subst (λ (y : DeliveryRow). IsOver y.state) (sym e) over

  Was-first :
      (d d0 x0 : DeliveryRow)
      → IsOrderly rows p f
      → OnWire rows
      → Memᴰ d0 rows
      → Memᴰ x0 rows
      → Was d d0
      → d.state ≡ DeliveryState.delivering
      → x0.subscription_id ≡ d0.subscription_id
      → x0.seq < d0.seq
      → IsOver x0.state
  Was-first d d0 x0 h w m n (inl (changed, e)) sends same first =
      h.starts_first d0 x0 m n changed (ap (λ (y : DeliveryRow). y.state) (sym e) ∙ sends) same
        first
  Was-first d d0 x0 h w m n (inr (kept, e)) sends same first =
      w d0 x0 m n (ap (λ (y : DeliveryRow). y.state) (sym e) ∙ sends) same first

  pub orderly-OnWire : IsOrderly rows p f → OnWire rows → OnWire (update_where p f rows)
  orderly-OnWire h w d x md mx sends same first =
      let (d0, m0, how_d) = Memᴰ-updated p f rows md in
      let (x0, n0, how_x) = Memᴰ-updated p f rows mx in
      let (seq_d, sub_d) = Was-place d d0 h how_d in
      let (seq_x, sub_x) = Was-place x x0 h how_x in
      let first0 : x0.seq < d0.seq = omega arith in
      Was-IsOver x x0 h n0 how_x
        (Was-first d d0 x0 h w m0 n0 how_d sends (sym sub_x ∙ same ∙ sub_d) first0)

  -- A change that parks nothing, next to one of the subscriptions that leaves the parking alone.
  pub orderly-ParkedRight :
      (subscriptions after : List SubscriptionRow)
      → IsOrderly rows p f
      → ((x : DeliveryRow) → p x ≡ true → (f x).state ≢ DeliveryState.parked)
      → SameParking subscriptions after
      → ParkedRight rows subscriptions
      → ParkedRight (update_where p f rows) after
  orderly-ParkedRight subscriptions after h never same_parking w d u md mu is_parked same =
      let (d0, m0, how_d) = Memᴰ-updated p f rows md in
      let (u0, n0, id_u, at_u) = same_parking u mu in
      ap is_some at_u ∙ before d0 m0 how_d u0 n0 (sym id_u ∙ same)
    where
      before :
          (d0 : DeliveryRow)
          → Memᴰ d0 rows
          → Was d d0
          → (u0 : SubscriptionRow) → Memᴰ u0 subscriptions
          → u0.subscription_id ≡ d.subscription_id
          → is_some u0.parked_at ≡ true
      before d0 m0 (inl (changed, e)) u0 n0 id =
          absurd (never d0 changed (ap (λ (y : DeliveryRow). y.state) (sym e) ∙ is_parked))
      before d0 m0 (inr (kept, e)) u0 n0 id =
          w d0 u0 m0 n0 (ap (λ (y : DeliveryRow). y.state) (sym e) ∙ is_parked)
            (id ∙ ap (λ (y : DeliveryRow). y.subscription_id) e)
