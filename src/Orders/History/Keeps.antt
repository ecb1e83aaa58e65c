-- ===== src/Orders/History/Keeps.antt =====
-- Which events leave an order as it is, and what this says of two claims.
use mathlib.Core.List.{Memᴰ}
use painfree_ebics_middlewar.Prelude.{
  ℕ, ◌-◌, ==_iff, Text, text_eq_differs, Bool, true, false, ◌&&◌, Bool-cases, any, leb, Option,
  none, some, List, [], ◌∷◌, All, All-Memᴰ, Distinct, Distinct-only, Memᴰ-kept, ◌≡◌, ◌≢◌, sym,
  subst, ◌∙◌, ◌⊎◌, inl, inr,
}
use painfree_ebics_middlewar.Schemes.Profiles.{
  PaymentScheme, same_scheme, SchemeProfiles, refuses_instant,
}
use painfree_ebics_middlewar.Orders.Rows.{OrderState, OrderRow, AttemptRow, Action, Store, is_order}
use painfree_ebics_middlewar.Orders.Queue.{
  is_candidate, max_attempts, has_seq, taken_by, ClaimedOrder, claim_lease, candidate,
  take_candidate, claim,
}
use painfree_ebics_middlewar.Orders.Queue.Claim.{Selected, candidate-Selected}
use painfree_ebics_middlewar.Orders.Queue.Outcomes.{
  update_order, opened, answer_live, recorded, settle, submitted, refused, retry_later,
}
use painfree_ebics_middlewar.Orders.Queue.Fallback.{
  Downgrade, can_promote, promoted, promote, fall_back_from, fall_back,
}
use painfree_ebics_middlewar.Orders.Replay.{IsRefused, is_replayable, replayed_values, replay}
use painfree_ebics_middlewar.Orders.Worker.{
  UploadEnd, uploaded, bank_refused, transport_failed, upload_failed, after_fall_back, deliver,
}
use painfree_ebics_middlewar.Orders.History.{
  Event, claims, opens, delivers, replays, reports, perform, run,
}
use painfree_ebics_middlewar.Orders.History.Reported.{reconcile-kept}
use painfree_ebics_middlewar.Orders.History.WellFormed.{WellFormed}
use painfree_ebics_middlewar.Orders.History.Promoted.{can_promote-order_id}
use painfree_ebics_middlewar.Orders.History.Reachable.{perform-WellFormed}

-- The event is not about the order: it cannot be claimed then, and it is not the one written to.
abbrev pub Leaves : OrderRow → Event → Type 0
Leaves o (claims worker now) = is_candidate now (now - claim_lease) o ≡ false
Leaves o (opens id transaction_id bank_order_id now) = o.order_id ≢ id
Leaves o (delivers profiles claimed end now) = o.order_id ≢ claimed.order.order_id
Leaves o (replays id seen now) = (o.order_id ≢ id) ⊎ IsRefused seen
Leaves o (reports connection_id id report now) =
    (o.state ≡ OrderState.submitting) ⊎ (id ≢ some o.order_id)

module _ (o : OrderRow) (s : Store) (m : Memᴰ o s.orders) where
  update_order-kept :
      (id : Text) (f : OrderRow → OrderRow) → o.order_id ≢ id → Memᴰ o (update_order id f s).orders
  unfolding update_order
  update_order-kept id f differs =
      Memᴰ-kept (is_order id) f s.orders m (text_eq_differs o.order_id id differs)

  settle-kept :
      (id : Text) (state : OrderState) (action : Action) (success : Bool)
      (code report_text : Option Text) (values : OrderRow → OrderRow) (now : ℕ)
      → o.order_id ≢ id
      → Memᴰ o (settle id state action success code report_text values now s).orders
  unfolding settle recorded answer_live
  settle-kept id state action success code report_text values now differs =
      update_order-kept id _ differs

  retry_later-kept :
      (id : Text) (attempts : ℕ) (reason : Text) (code report_text : Option Text) (now : ℕ)
      → o.order_id ≢ id
      → Memᴰ o (retry_later id attempts reason code report_text now s).1.orders
  unfolding retry_later
  retry_later-kept id attempts reason code report_text now differs =
      elim (Bool-cases (leb max_attempts attempts)) [
        | inl e ↦ rw e (
            settle-kept id OrderState.failed Action.payment_failed false code report_text _ now
              differs)
        | inr e ↦ rw e (update_order-kept id _ differs)
      ]

  -- The row with the number of the candidate is the candidate, so another row is not written.
  claim-kept :
      (worker : Text) (now lease : ℕ)
      → Distinct (λ x. x.seq) s.orders
      → is_candidate now (now - lease) o ≡ false
      → Memᴰ o (claim worker now lease s).1.orders
  unfolding claim
  claim-kept worker now lease d not_now =
      take (candidate now (now - lease) s.orders) (candidate-Selected now (now - lease) s.orders)
    where
      take :
          (found : Option ℕ)
          → Selected now (now - lease) s.orders found
          → Memᴰ o (take_candidate worker now s found).1.orders
      take none h = m
      take (some n) (taken, oldest, same) = elim (Bool-cases (has_seq n o)) [
        | inl e ↦
            let is_it : o ≡ taken =
              All-Memᴰ (λ x. x.seq ≡ taken.seq → x ≡ taken) s.orders
                (Distinct-only (λ x. x.seq) s.orders d oldest.0) m
                ((==_iff o.seq n).0 e ∙ sym same) in
            let no : is_candidate now (now - lease) taken ≡ false =
              subst (λ x. is_candidate now (now - lease) x ≡ false) is_it not_now in
            cc (oldest.1)
        | inr e ↦ Memᴰ-kept (has_seq n) (taken_by worker now) s.orders m e
      ]

  fall_back-kept :
      (claimed : ClaimedOrder) (profiles : SchemeProfiles) (code report_text : Option Text)
      (now : ℕ)
      → o.order_id ≢ claimed.order.order_id
      → Memᴰ o (fall_back claimed profiles code report_text now s).1.orders
  unfolding fall_back promoted recorded
  fall_back-kept claimed profiles code report_text now differs =
      elim (Bool-cases
        (refuses_instant profiles code && same_scheme claimed.order.scheme PaymentScheme.instant)) [
          | inl h ↦ rw h (from code)
          | inr h ↦ rw h m
        ]
    where
      cannot : can_promote claimed o ≡ false
      cannot = elim (Bool-cases (can_promote claimed o)) [
        | inl e ↦ absurd (differs (can_promote-order_id claimed o e))
        | inr e ↦ e
      ]

      to :
          (c : Text) (reserve : Option AttemptRow)
          → Memᴰ o (promote claimed c report_text now s reserve).1.orders
      to c none = m
      to c (some reserve) = elim (Bool-cases (any (can_promote claimed) s.orders)) [
        | inl h ↦ rw h (Memᴰ-kept (can_promote claimed) _ s.orders m cannot)
        | inr h ↦ rw h m
      ]

      from : (c : Option Text) → Memᴰ o (fall_back_from claimed c report_text now s).1.orders
      from none = m
      from (some c) = to c _

module _ (schema_failures : Text → List Text) where
  deliver-kept :
      (profiles : SchemeProfiles) (now : ℕ) (claimed : ClaimedOrder) (end : UploadEnd)
      (o : OrderRow) (s : Store)
      → Memᴰ o s.orders
      → o.order_id ≢ claimed.order.order_id
      → Memᴰ o (deliver schema_failures profiles now claimed end s).1.orders
  unfolding deliver submitted refused
  deliver-kept profiles now claimed (uploaded bank_order_id code report_text) o s m differs =
      settle-kept o s m claimed.order.order_id OrderState.submitted Action.payment_submitted true
        code report_text _ now differs
  deliver-kept profiles now claimed (bank_refused r request) o s m differs =
      elim (Bool-cases r.retryable) [
        | inl e ↦
            rw e (retry_later-kept o s m claimed.order.order_id claimed.attempts _ _ _ now differs)
        | inr e ↦ rw e (
            after (fall_back claimed profiles (some r.return_code) r.report_text now s) (
              fall_back-kept o s m claimed profiles (some r.return_code) r.report_text now differs))
      ]
    where
      after :
          (x : Option Downgrade × Store)
          → Memᴰ o x.1.orders
          → Memᴰ o (after_fall_back schema_failures profiles now claimed r request s x).1.orders
      after (some downgrade, s') m' = m'
      after (none, s') m' =
          settle-kept o s' m' claimed.order.order_id OrderState.rejected Action.payment_rejected
            false (some r.return_code) r.report_text _ now differs
  deliver-kept profiles now claimed (transport_failed reason) o s m differs =
      retry_later-kept o s m claimed.order.order_id claimed.attempts reason none none now differs
  deliver-kept profiles now claimed (upload_failed reason) o s m differs =
      retry_later-kept o s m claimed.order.order_id claimed.attempts reason none none now differs

replay-kept :
    (id : Text) (seen : Option OrderRow) (now : ℕ) (o : OrderRow) (s : Store)
    → Memᴰ o s.orders
    → (o.order_id ≢ id) ⊎ IsRefused seen
    → Memᴰ o (replay id seen now s).1.orders
unfolding replay recorded
replay-kept id none now o s m h = m
replay-kept id (some r) now o s m h = elim (Bool-cases (is_replayable r.state)) [
  | inl e ↦ rw e (
      update_order-kept o s m id (replayed_values now) (elim h [
        | inl different ↦ different
        | inr never ↦ let no : true ≡ false = sym e ∙ never in absurd (cc)
      ]))
  | inr e ↦ rw e m
]

module _ (schema_failures : Text → List Text) (datetime_utc : Text → Option ℕ) where
  perform-kept :
      (e : Event) (o : OrderRow) (s : Store)
      → WellFormed s
      → Memᴰ o s.orders
      → Leaves o e
      → Memᴰ o (perform schema_failures datetime_utc e s).orders
  unfolding perform opened
  perform-kept (claims worker now) o s w m h =
      claim-kept o s m worker now claim_lease w.distinct_seq h
  perform-kept (opens id transaction_id bank_order_id now) o s w m h =
      update_order-kept o s m id _ h
  perform-kept (delivers profiles claimed end now) o s w m h =
      deliver-kept schema_failures profiles now claimed end o s m h
  perform-kept (replays id seen now) o s w m h = replay-kept id seen now o s m h
  perform-kept (reports connection_id id report now) o s w m h =
      reconcile-kept datetime_utc connection_id id report now o s m h

  -- An order keeps its row through every event that cannot claim it, that does not write to it and
  -- that does not replay it.
  pub run-kept :
      (events : List Event) (o : OrderRow) (s : Store)
      → WellFormed s
      → Memᴰ o s.orders
      → All (Leaves o) events
      → Memᴰ o (run schema_failures datetime_utc events s).orders
  run-kept [] o s w m h = m
  run-kept (e ∷ events) o s w m h =
      run-kept events o (perform schema_failures datetime_utc e s)
        (perform-WellFormed schema_failures datetime_utc e s w) (perform-kept e o s w m h.0) h.1
