-- ===== src/Orders/History/Promoted.antt =====
-- `fall_back` of painfree/queue.py keeps the tables well-formed.

use painfree_ebics_middlewar.Prelude.{
  ℕ, Text, text_eq→eq, true, false, ◌&&◌, Bool-cases, any, Option, none, some, All, map-All,
  All-updated, All-update_where, any-Memᴰ, update_where, zip-All, Distinct, Distinct-only,
  Distinct-update_where, ◌≡◌, ◌≢◌, refl, sym, subst, ◌∙◌, inl, inr, arith,
}
use painfree_ebics_middlewar.Schemes.Profiles.{
  PaymentScheme, same_scheme, SchemeProfiles, refuses_instant,
}
use painfree_ebics_middlewar.Orders.Rows.{OrderRow, AttemptState, AttemptRow, Store, one}
use painfree_ebics_middlewar.Orders.Queue.{ClaimedOrder}
use painfree_ebics_middlewar.Orders.Queue.Outcomes.{recorded}
use painfree_ebics_middlewar.Orders.Queue.Fallback.{
  can_promote, promoted_values, superseded_values, live_values, promoted_attempts, refusal_reason,
  promoted, promote, fall_back_from, fall_back,
}
use painfree_ebics_middlewar.Orders.History.WellFormed.{
  IsHeldRight, Carries, IsLiveRight, WellFormed,
}
use painfree_ebics_middlewar.Orders.History.Promotion.{
  live_promoted_attempts, live_promoted_attempts_other,
}
use painfree_ebics_middlewar.Orders.History.Changes.{audit-WellFormed}

pub can_promote-order_id :
    (claimed : ClaimedOrder) (o : OrderRow)
    → can_promote claimed o ≡ true
    → o.order_id ≡ claimed.order.order_id
unfolding can_promote
can_promote-order_id claimed o h = text_eq→eq o.order_id claimed.order.order_id (ground arith)

module _ (claimed : ClaimedOrder) (reserve : AttemptRow) (reason : Text)
    (code report_text : Option Text) (now : ℕ) (s : Store) where
  -- If one row of the order can be promoted, a row that cannot is of another order.
  others :
      Distinct (λ o. o.order_id) s.orders
      → any (can_promote claimed) s.orders ≡ true
      → All (λ o. can_promote claimed o ≡ false → o.order_id ≢ claimed.order.order_id) s.orders
  others d h =
      let (it, m, can) = any-Memᴰ (can_promote claimed) s.orders h in
      let here = can_promote-order_id claimed it can in
      map-All
        (λ o unique cannot same.
          let is_it : o ≡ it = unique (same ∙ sym here) in
          let f : can_promote claimed it ≡ false =
            subst (λ x. can_promote claimed x ≡ false) is_it cannot in
          cc)
        s.orders (Distinct-only (λ o. o.order_id) s.orders d m)

  promoted_values-seq :
      (o : OrderRow) → (promoted_values reserve reason code report_text now o).seq ≡ o.seq
  unfolding promoted_values
  promoted_values-seq o = refl

  promoted_values-order_id :
      (o : OrderRow) → (promoted_values reserve reason code report_text now o).order_id ≡ o.order_id
  unfolding promoted_values
  promoted_values-order_id o = refl

  promoted_values-IsHeldRight :
      (o : OrderRow) → IsHeldRight (promoted_values reserve reason code report_text now o)
  unfolding promoted_values
  promoted_values-IsHeldRight o = (refl, refl)

  promoted_attempts-Distinct :
      Distinct (λ a. a.attempt_id) s.attempts
      → Distinct
          (λ a. a.attempt_id)
          (promoted_attempts claimed.order.order_id reserve reason code report_text now s.attempts)
  unfolding promoted_attempts superseded_values live_values
  promoted_attempts-Distinct d =
      Distinct-update_where (λ a. a.attempt_id) _ _ (λ a. refl) _
        (Distinct-update_where (λ a. a.attempt_id) _ _ (λ a. refl) s.attempts d)

  -- The promoted order has the reserve's message.
  promoted_values-Carries :
      (o : OrderRow)
      → Carries
          (promoted_values reserve reason code report_text now o)
          (live_values reason now reserve)
  unfolding promoted_values live_values
  promoted_values-Carries o = (refl, refl, refl, refl)

  abbrev pub promoted_tables : Store
  promoted_tables = record s {
    orders =
        update_where (can_promote claimed) (promoted_values reserve reason code report_text now)
          s.orders;
    attempts =
        promoted_attempts claimed.order.order_id reserve reason code report_text now s.attempts;
  }

  promoted-live :
      WellFormed s
      → one claimed.order.order_id AttemptState.planned s.attempts ≡ some reserve
      → any (can_promote claimed) s.orders ≡ true
      → All (IsLiveRight promoted_tables.attempts) promoted_tables.orders
  promoted-live w e h =
      All-updated
        {P = λ o.
          (IsLiveRight s.attempts o)
          × (can_promote claimed o ≡ false → o.order_id ≢ claimed.order.order_id)}
        (can_promote claimed) (promoted_values reserve reason code report_text now)
        (λ o can _. (
          live_values reason now reserve,
          rw (promoted_values-order_id o, can_promote-order_id claimed o can)
              (live_promoted_attempts claimed.order.order_id reserve reason code report_text now
                s.attempts w.distinct_attempt e),
          promoted_values-Carries o,
        ))
        (λ o cannot (right, other). (
          right.0,
          live_promoted_attempts_other claimed.order.order_id reserve reason code report_text now
                s.attempts w.distinct_attempt e o.order_id (other cannot)
              ∙ right.1,
          right.2,
        ))
        s.orders (zip-All _ _ s.orders w.live (others w.distinct_order h))

  promoted_tables-WellFormed :
      WellFormed s
      → one claimed.order.order_id AttemptState.planned s.attempts ≡ some reserve
      → any (can_promote claimed) s.orders ≡ true
      → WellFormed promoted_tables
  promoted_tables-WellFormed w e h = record {
    distinct_seq =
        Distinct-update_where (λ o. o.seq) _ _ promoted_values-seq s.orders w.distinct_seq;
    distinct_order =
        Distinct-update_where (λ o. o.order_id) _ _ promoted_values-order_id s.orders
          w.distinct_order;
    distinct_attempt = promoted_attempts-Distinct w.distinct_attempt;
    held = All-update_where _ _ (λ o _ _. promoted_values-IsHeldRight o) s.orders w.held;
    live = promoted-live w e h;
  }

-- A fall back that is refused changes nothing, and one that is not changes both tables.
promote-WellFormed :
    (claimed : ClaimedOrder) (code : Text) (report_text : Option Text) (now : ℕ) (s : Store)
    (reserve : Option AttemptRow)
    → one claimed.order.order_id AttemptState.planned s.attempts ≡ reserve
    → WellFormed s
    → WellFormed (promote claimed code report_text now s reserve).1
unfolding promoted recorded
promote-WellFormed claimed code report_text now s none e w = w
promote-WellFormed claimed code report_text now s (some reserve) e w =
    elim (Bool-cases (any (can_promote claimed) s.orders)) [
      | inl h ↦ rw h (promoted-WellFormed h)
      | inr h ↦ rw h w
    ]
  where
    promoted-WellFormed :
        any (can_promote claimed) s.orders ≡ true
        → WellFormed (promoted claimed code report_text now s reserve)
    promoted-WellFormed h =
        audit-WellFormed
          (promoted_tables claimed reserve (refusal_reason code) (some code) report_text now s) _
          (promoted_tables-WellFormed claimed reserve (refusal_reason code) (some code) report_text
            now s w e h)

pub fall_back-WellFormed :
    (claimed : ClaimedOrder) (profiles : SchemeProfiles) (code report_text : Option Text) (now : ℕ)
    (s : Store)
    → WellFormed s
    → WellFormed (fall_back claimed profiles code report_text now s).1
unfolding fall_back
fall_back-WellFormed claimed profiles code report_text now s w =
    elim (Bool-cases
      (refuses_instant profiles code && same_scheme claimed.order.scheme PaymentScheme.instant)) [
        | inl h ↦ rw h (fall_back_from-WellFormed code)
        | inr h ↦ rw h w
      ]
  where
    fall_back_from-WellFormed :
        (c : Option Text) → WellFormed (fall_back_from claimed c report_text now s).1
    fall_back_from-WellFormed none = w
    fall_back_from-WellFormed (some c) = promote-WellFormed claimed c report_text now s _ refl w
