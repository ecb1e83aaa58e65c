-- ===== src/Ebics/Transaction/Feed/Keeps.antt =====
-- A predicate on the object is kept by `feed` if each of the ways on which `feed` changes the object
-- keeps it.
use painfree_ebics_middlewar.Prelude.{true, false, Bool-cases, inl, inr, ◌≡◌, is_some}
use painfree_ebics_middlewar.Ebics.Errors.{Result, ok, err}
use painfree_ebics_middlewar.Ebics.Responses.{
  BankResponse, classify, status_needs_recovery, status_ends_transaction, raise_for_status,
}
use painfree_ebics_middlewar.Ebics.Transaction.Feed.{
  Phase, Direction, Outcome, or_text, is_truthy, recovery_point, is_initialisation, returning,
  feed_step, feed_accepted, feed_response,
}

module _ {S : Type 0} (P : S → Type 0) (r : BankResponse) where
  returning-keeps : (o : Outcome Unit S) → P o.1 → P (returning r o).1
  returning-keeps (ok x, s) h = h
  returning-keeps (err e, s) h = h

module _ {S : Type 0} (d : Direction S) (P : S → Type 0) (r : BankResponse) (s : S) (start : P s)
    (on_resume : status_needs_recovery (classify r) ≡ true
      → is_some (d.shared s).transaction_id ≡ true
      → P (d.resume (recovery_point r) s).1)
    (on_end : P (
      d.with_shared s (record (d.shared s) {
        transaction_id = or_text r.transaction_id (d.shared s).transaction_id;
        phase = Phase.done;
      })))
    (on_opening : is_truthy r.transaction_id ≡ true
      → P
          (d.advance r
            (d.with_shared s (record (d.shared s) { transaction_id = r.transaction_id }))).1)
    (on_step : is_initialisation (d.shared s).phase ≡ false → P (d.advance r s).1) where
  feed_step-keeps : P (feed_step d r s).1
  unfolding feed_step
  feed_step-keeps = elim (Bool-cases (is_initialisation (d.shared s).phase)) [
    | inl i ↦ elim (Bool-cases (is_truthy r.transaction_id)) [
      | inl named ↦ rw (i, named) (returning-keeps P r _ (on_opening named))
      | inr unnamed ↦ rw (i, unnamed) start
    ]
    | inr i ↦ rw i (returning-keeps P r _ (on_step i))
  ]

  feed_accepted-keeps : (o : Result (Unit {0})) → P (feed_accepted d r s o).1
  feed_accepted-keeps (err e) = start
  feed_accepted-keeps (ok x) = elim (Bool-cases (status_ends_transaction (classify r))) [
    | inl e ↦ rw e on_end
    | inr e ↦ rw e feed_step-keeps
  ]

  pub feed_response-keeps : P (feed_response d r s).1
  unfolding feed_response
  feed_response-keeps = elim (Bool-cases (status_needs_recovery (classify r))) [
    | inl n ↦ elim (Bool-cases (is_some (d.shared s).transaction_id)) [
      | inl t ↦ rw (n, t) (returning-keeps P r _ (on_resume n t))
      | inr t ↦ rw (n, t) (feed_accepted-keeps (raise_for_status (classify r)))
    ]
    | inr n ↦ rw n (feed_accepted-keeps (raise_for_status (classify r)))
  ]
