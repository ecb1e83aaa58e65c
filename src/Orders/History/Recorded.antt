-- ===== src/Orders/History/Recorded.antt =====
-- How an upload ends is written to the order's row: `_deliver` of painfree/worker.py.
use mathlib.Core.List.{Memᴰ}
use painfree_ebics_middlewar.Prelude.{
  ℕ, leb, Text, text_eq_iff, Bool, true, false, ◌&&◌, Bool-cases, any, any-Memᴰ, Option, none, some,
  List, All-Memᴰ, Distinct, Distinct-only, Memᴰ-changed, ◌≡◌, ◌≢◌, refl, sym, subst, ◌∙◌, inl, inr,
}
use painfree_ebics_middlewar.Schemes.Profiles.{
  PaymentScheme, same_scheme, SchemeProfiles, refuses_instant,
}
use painfree_ebics_middlewar.Orders.Rows.{OrderState, OrderRow, AttemptRow, Action, Store, is_order}
use painfree_ebics_middlewar.Orders.Queue.{max_attempts, backoff, ClaimedOrder}
use painfree_ebics_middlewar.Orders.Queue.Outcomes.{
  update_order, settled_values, answer_live, recorded, settle, submitted, submitted_values, refused,
  refused_values, failed_values, deferred_values, retry_later,
}
use painfree_ebics_middlewar.Orders.Queue.Fallback.{
  Downgrade, can_promote, promoted_values, refusal_reason, promoted, promote, fall_back_from,
  fall_back,
}
use painfree_ebics_middlewar.Orders.Worker.{
  UploadEnd, uploaded, bank_refused, transport_failed, upload_failed, after_fall_back, deliver,
}
use painfree_ebics_middlewar.Orders.History.Promoted.{can_promote-order_id}

-- The order's row is in a state, and no worker holds it.
abbrev pub Recorded : OrderRow → OrderState × Store → Type 0
Recorded o (state, s) =
    (row : OrderRow) × Memᴰ row s.orders
    × (row.order_id ≡ o.order_id)
    × (row.state ≡ state)
    × (state ≢ OrderState.submitting)
    × (row.worker_id ≡ none)
    × (row.claimed_at ≡ none)

module _ (o : OrderRow) (s : Store) (m : Memᴰ o s.orders) (id : Text) (same : o.order_id ≡ id) where
  pub updated : (f : OrderRow → OrderRow) → Memᴰ (f o) (update_order id f s).orders
  unfolding update_order
  updated f = Memᴰ-changed (is_order id) f s.orders m ((text_eq_iff o.order_id id).1 same)

  settle-Recorded :
      (state : OrderState) (action : Action) (success : Bool) (code report_text : Option Text)
      (values : OrderRow → OrderRow) (now : ℕ)
      → state ≢ OrderState.submitting
      → ((x : OrderRow) → (values x).order_id ≡ x.order_id)
      → Recorded o (state, settle id state action success code report_text values now s)
  unfolding settle recorded answer_live settled_values
  settle-Recorded state action success code report_text values now final keeps = (
    settled_values state now (values o),
    updated (λ x. settled_values state now (values x)),
    keeps o,
    refl,
    final,
    refl,
    refl,
  )

  retry_later-Recorded :
      (attempts : ℕ) (reason : Text) (code report_text : Option Text) (now : ℕ)
      → Recorded o (retry_later id attempts reason code report_text now s)
  unfolding retry_later deferred_values failed_values
  retry_later-Recorded attempts reason code report_text now =
      elim (Bool-cases (leb max_attempts attempts)) [
        | inl e ↦ rw e (
            settle-Recorded OrderState.failed Action.payment_failed false code report_text
              (failed_values code report_text reason) now (λ x. cc) (λ x. refl))
        | inr e ↦ rw e (
          deferred_values (backoff attempts) reason code report_text now o,
          updated (deferred_values (backoff attempts) reason code report_text now),
          refl,
          refl,
          (λ x. cc),
          refl,
          refl,
        )
      ]

  refused-Recorded :
      (schema_failures : Text → List Text) (code report_text request : Option Text) (now : ℕ)
      → Recorded o (refused schema_failures id code report_text request now s)
  unfolding refused refused_values
  refused-Recorded schema_failures code report_text request now =
      settle-Recorded OrderState.rejected Action.payment_rejected false code report_text _ now
        (λ x. cc) (λ x. refl)

  submitted-Recorded :
      (bank_order_id code report_text : Option Text) (now : ℕ)
      → Recorded o (submitted id bank_order_id code report_text now s)
  unfolding submitted submitted_values
  submitted-Recorded bank_order_id code report_text now =
      settle-Recorded OrderState.submitted Action.payment_submitted true code report_text _ now
        (λ x. cc) (λ x. refl)

-- A fall back that happens puts the order's row back; one that does not leaves the store as it is.
abbrev Fell : OrderRow → Store → Option Downgrade × Store → Type 0
Fell o s (none, s') = s' ≡ s
Fell o s (some downgrade, s') = Recorded o (OrderState.accepted, s')

module _ (claimed : ClaimedOrder) (o : OrderRow) (s : Store)
    (d : Distinct (λ x. x.order_id) s.orders) (m : Memᴰ o s.orders)
    (same : o.order_id ≡ claimed.order.order_id) where
  pub the_promoted : any (can_promote claimed) s.orders ≡ true → can_promote claimed o ≡ true
  the_promoted h =
      let (it, mi, can) = any-Memᴰ (can_promote claimed) s.orders h in
      let is_it : it ≡ o =
        All-Memᴰ (λ x. x.order_id ≡ o.order_id → x ≡ o) s.orders
          (Distinct-only (λ x. x.order_id) s.orders d m) mi
          (can_promote-order_id claimed it can ∙ sym same) in
      subst (λ x. can_promote claimed x ≡ true) is_it can

  promote-Fell :
      (code : Text) (report_text : Option Text) (now : ℕ) (reserve : Option AttemptRow)
      → Fell o s (promote claimed code report_text now s reserve)
  unfolding promoted recorded promoted_values
  promote-Fell code report_text now none = refl
  promote-Fell code report_text now (some reserve) =
      elim (Bool-cases (any (can_promote claimed) s.orders)) [
        | inl h ↦ rw h (
          promoted_values reserve (refusal_reason code) (some code) report_text now o,
          Memᴰ-changed (can_promote claimed) _ s.orders m (the_promoted h),
          refl,
          refl,
          (λ x. cc),
          refl,
          refl,
        )
        | inr h ↦ rw h refl
      ]

  fall_back-Fell :
      (profiles : SchemeProfiles) (code report_text : Option Text) (now : ℕ)
      → Fell o s (fall_back claimed profiles code report_text now s)
  unfolding fall_back
  fall_back-Fell profiles code report_text now =
      elim (Bool-cases
        (refuses_instant profiles code && same_scheme claimed.order.scheme PaymentScheme.instant)) [
          | inl h ↦ rw h (from code)
          | inr h ↦ rw h refl
        ]
    where
      from : (c : Option Text) → Fell o s (fall_back_from claimed c report_text now s)
      from none = refl
      from (some c) = promote-Fell c report_text now _

  -- However an upload ends, the order that was claimed has a row in the state that the worker
  -- reports, which is not `submitting`, and no worker holds it. The order had a row before, and the
  -- ids of the rows are different from each other.
  pub deliver-Recorded :
      (schema_failures : Text → List Text) (profiles : SchemeProfiles) (now : ℕ) (end : UploadEnd)
      → Recorded o (deliver schema_failures profiles now claimed end s)
  unfolding deliver
  deliver-Recorded schema_failures profiles now (uploaded bank_order_id code report_text) =
      submitted-Recorded o s m claimed.order.order_id same bank_order_id code report_text now
  deliver-Recorded schema_failures profiles now (bank_refused r request) =
      elim (Bool-cases r.retryable) [
        | inl e ↦
            rw e (retry_later-Recorded o s m claimed.order.order_id same claimed.attempts _ _ _ now)
        | inr e ↦ rw e (
            after (fall_back claimed profiles (some r.return_code) r.report_text now s)
              (fall_back-Fell profiles (some r.return_code) r.report_text now))
      ]
    where
      after :
          (x : Option Downgrade × Store)
          → Fell o s x
          → Recorded o (after_fall_back schema_failures profiles now claimed r request s x)
      after (some downgrade, s') h = h
      after (none, s') h = rw h (
          refused-Recorded o s m claimed.order.order_id same schema_failures (some r.return_code)
            r.report_text request now)
  deliver-Recorded schema_failures profiles now (transport_failed reason) =
      retry_later-Recorded o s m claimed.order.order_id same claimed.attempts reason none none now
  deliver-Recorded schema_failures profiles now (upload_failed reason) =
      retry_later-Recorded o s m claimed.order.order_id same claimed.attempts reason none none now
