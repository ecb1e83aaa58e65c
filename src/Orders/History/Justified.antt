-- ===== src/Orders/History/Justified.antt =====
-- When `fall_back` of painfree/queue.py puts a second message on the wire.
use mathlib.Core.List.{Memᴰ}
use painfree_ebics_middlewar.Prelude.{
  ℕ, Text, text_eq→eq, true, ◌&&◌, Bool-cases, is_none, any, any-Memᴰ, Option, none, some,
  Memᴰ-changed, ◌≡◌, refl, ap, inl, inr, arith,
}
use painfree_ebics_middlewar.Schemes.Profiles.{
  PaymentScheme, same_scheme, SchemeProfiles, refuses_instant,
}
use painfree_ebics_middlewar.Schemes.Resolve.Laws.{same_scheme→eq}
use painfree_ebics_middlewar.Orders.Rows.{
  OrderState, same_state, OrderRow, AttemptState, AttemptRow, Store, option_is, one,
}
use painfree_ebics_middlewar.Orders.Queue.{ClaimedOrder}
use painfree_ebics_middlewar.Orders.Queue.Outcomes.{recorded}
use painfree_ebics_middlewar.Orders.Queue.Fallback.{
  Downgrade, can_promote, promoted_values, refusal_reason, promoted, promote, fall_back_from,
  fall_back,
}

-- The claiming worker still holds the order as an instant one, and the bank acknowledged nothing.
pub record IsPromotable (claimed : ClaimedOrder) (o : OrderRow) : Type 0 where
  pub the_order : o.order_id ≡ claimed.order.order_id
  pub is_submitting : o.state ≡ OrderState.submitting
  pub same_worker : o.worker_id ≡ some claimed.worker_id
  pub is_instant : o.scheme ≡ PaymentScheme.instant
  pub no_transaction : o.transaction_id ≡ none
  pub no_order_id : o.bank_order_id ≡ none

same_state→eq : (a b : OrderState) → same_state a b ≡ true → a ≡ b
unfolding same_state
same_state→eq a b h = ground arith

option_is→eq : (a : Option Text) (b : Text) → option_is a b ≡ true → a ≡ some b
option_is→eq none b h = cc
option_is→eq (some a) b h = ap some (text_eq→eq a b h)

is_none→eq : (a : Option Text) → is_none a ≡ true → a ≡ none
is_none→eq none h = refl
is_none→eq (some a) h = cc

can_promote-IsPromotable :
    (claimed : ClaimedOrder) (o : OrderRow) → can_promote claimed o ≡ true → IsPromotable claimed o
unfolding can_promote
can_promote-IsPromotable claimed o h = record {
  the_order = text_eq→eq o.order_id claimed.order.order_id (ground arith);
  is_submitting = same_state→eq o.state OrderState.submitting (ground arith);
  same_worker = option_is→eq o.worker_id claimed.worker_id (ground arith);
  is_instant = same_scheme→eq o.scheme PaymentScheme.instant (ground arith);
  no_transaction = is_none→eq o.transaction_id (ground arith);
  no_order_id = is_none→eq o.bank_order_id (ground arith);
}

-- The order goes back to the queue with the reserve's message, and counts its attempts anew.
abbrev HasReserve : AttemptRow → OrderRow → Type 0
HasReserve reserve row =
    (row.state ≡ OrderState.accepted)
    × (row.attempts ≡ 0)
    × (row.msg_id ≡ reserve.msg_id)
    × (row.document ≡ reserve.document)
    × (row.scheme ≡ reserve.scheme)

-- What a fall back comes to.
abbrev pub Justified :
    ClaimedOrder → SchemeProfiles → Option Text → Store → Option Downgrade × Store → Type 0
Justified claimed profiles code s (none, s') = s' ≡ s
Justified claimed profiles code s (some downgrade, s') =
    (refuses_instant profiles code ≡ true)
    × (claimed.order.scheme ≡ PaymentScheme.instant)
    × (one claimed.order.order_id AttemptState.planned s.attempts ≡ some downgrade.attempt)
    × ((o row : OrderRow) × Memᴰ o s.orders
        × IsPromotable claimed o
        × Memᴰ row s'.orders
        × (row.order_id ≡ o.order_id)
        × HasReserve downgrade.attempt row)

module _ (claimed : ClaimedOrder) (profiles : SchemeProfiles) (report_text : Option Text) (now : ℕ)
    (s : Store) where
  promote-Justified :
      (code : Text) (reserve : Option AttemptRow)
      → refuses_instant profiles (some code) ≡ true
      → claimed.order.scheme ≡ PaymentScheme.instant
      → one claimed.order.order_id AttemptState.planned s.attempts ≡ reserve
      → Justified claimed profiles (some code) s (promote claimed code report_text now s reserve)
  unfolding promoted recorded promoted_values
  promote-Justified code none means instant e = refl
  promote-Justified code (some reserve) means instant e =
      elim (Bool-cases (any (can_promote claimed) s.orders)) [
        | inl h ↦
            let (o, m, can) = any-Memᴰ (can_promote claimed) s.orders h in
            rw h (
              means,
              instant,
              e,
              (
                o,
                promoted_values reserve (refusal_reason code) (some code) report_text now o,
                m,
                can_promote-IsPromotable claimed o can,
                Memᴰ-changed (can_promote claimed) _ s.orders m can,
                refl,
                (refl, refl, refl, refl, refl),
              ),
            )
        | inr h ↦ rw h refl
      ]

  -- A fall back is refused and changes nothing, or else all of this holds: the bank's code is among
  -- those that the connection takes for a refusal of instant; the order that was claimed is an instant
  -- one and has a planned attempt; and its row is still `submitting`, held by this worker, with the
  -- scheme instant, without a transaction and without an order number of the bank. The row is then
  -- accepted with the message of the planned attempt, and no attempts counted.
  pub fall_back-Justified :
      (code : Option Text)
      → Justified claimed profiles code s (fall_back claimed profiles code report_text now s)
  unfolding fall_back
  fall_back-Justified code =
      elim (Bool-cases
        (refuses_instant profiles code && same_scheme claimed.order.scheme PaymentScheme.instant)) [
          | inl h ↦ rw h (
              from code (ground arith)
                (same_scheme→eq claimed.order.scheme PaymentScheme.instant (ground arith)))
          | inr h ↦ rw h refl
        ]
    where
      from :
          (c : Option Text)
          → refuses_instant profiles c ≡ true
          → claimed.order.scheme ≡ PaymentScheme.instant
          → Justified claimed profiles c s (fall_back_from claimed c report_text now s)
      from none means instant = refl
      from (some c) means instant = promote-Justified c _ means instant refl
