-- ===== src/Ebics/Transaction/Upload/Sending.antt =====
-- What an upload puts on the wire, for a bank that takes every step.
use painfree_ebics_middlewar.Prelude.{
  ℕ, zero, suc, pos, ◌+◌, ◌<◌, Text, true, false, ◌==◌, get_elem?, length, drop, none, some, List,
  [], ◌∷◌, ◌≡◌, refl, ap, arith, ◌∙◌, sym,
}
use painfree_ebics_middlewar.Ebics.Errors.{ok}
use painfree_ebics_middlewar.Ebics.Responses.{BankResponse}
use painfree_ebics_middlewar.Ebics.Responses.Accepted.{
  IsOk, IsSync, IsSync-needs_recovery, IsOk-needs_recovery, IsOk-ends_transaction,
  IsOk-raise_for_status,
}
use painfree_ebics_middlewar.Ebics.Transaction.Feed.{
  Phase, opening, Request, transfer_request, or_text, resume_at, feed_response, feed_step,
}
use painfree_ebics_middlewar.Ebics.Transaction.Upload.{
  Upload, Run, submitted, upload_direction, end_of, next_request, advance, drive, run_upload,
  also_sent,
}

-- The transfers that a text cut in these segments calls for: numbered in order, `lastSegment` on the
-- one with nothing after it.
unfoldable pub transfers : Text → ℕ → List Text → List Request
transfers id number [] = []
transfers id number (s ∷ []) = transfer_request id number true (some s) ∷ []
transfers id number (s ∷ t ∷ rest) =
    transfer_request id number false (some s) ∷ transfers id (suc number) (t ∷ rest)

pub transfers-more :
    (id : Text) (n : ℕ) (s t : Text) (rest : List Text)
    → transfers id n (s ∷ t ∷ rest)
      ≡ transfer_request id n false (some s) ∷ transfers id (suc n) (t ∷ rest)
unfolding transfers
transfers-more id n s t rest = refl

-- The tail of a list from a position.
pub record From {ℓ} {A : Type ℓ} (xs : List A) (n : ℕ) (x : A) (rest : List A) : Type ℓ where
  pub at_first : get_elem? xs n ≡ some x
  pub after : drop (suc n) xs ≡ rest
  pub total : length xs ≡ n + suc (length rest)

pub From-drop {ℓ} :
    {A : Type ℓ} (xs : List A) (n : ℕ) {x : A} {rest : List A}
    → drop n xs ≡ x ∷ rest
    → From xs n x rest
From-drop [] zero h = cc
From-drop [] (suc n) h = cc
From-drop (y ∷ ys) zero h = record {
  at_first = ground (arith, h);
  after = ground (arith, h);
  total = ground (arith, h, ap length h);
}
From-drop (y ∷ ys) (suc n) h =
    let f = From-drop ys n h in
    record { at_first = f.at_first; after = f.after; total = omega (arith, f.total) }

module _ (r : BankResponse) (u : Upload) (id : Text) (h : IsOk r) where
  feed_response-ok : feed_response upload_direction r u ≡ feed_step upload_direction r u
  unfolding feed_response
  feed_response-ok = rw (IsOk-needs_recovery h, IsOk-raise_for_status h, IsOk-ends_transaction h)

  feed_response-transfer :
      u.phase ≡ Phase.transfer → feed_response upload_direction r u ≡ (ok r, (advance r u).1)
  feed_response-transfer p = feed_response-ok ∙ (unfold feed_step advance in ground arith)

next_request-transfer :
    (u : Upload) (id s : Text) (rest : List Text)
    → u.phase ≡ Phase.transfer
    → u.transaction_id ≡ some id
    → From u.segments u.cursor s rest
    → next_request u
      ≡ ok (some (transfer_request id (u.cursor + 1) (u.cursor + 1 == length u.segments) (some s)))
unfolding next_request
next_request-transfer u id s rest p t f = rw (p, f.at_first, t)

-- What one transfer step does to the fields.
module _ (r : BankResponse) (u : Upload) (p : u.phase ≡ Phase.transfer) where
  advance-last : length u.segments ≡ u.cursor + 1 → (advance r u).1.phase ≡ Phase.done
  unfolding advance
  advance-last e = ground arith

  advance-more :
      u.cursor + 1 < length u.segments
      → ((advance r u).1.phase ≡ Phase.transfer)
        × ((advance r u).1.transaction_id ≡ u.transaction_id)
        × ((advance r u).1.cursor ≡ suc u.cursor)
        × ((advance r u).1.segments ≡ u.segments)
  unfolding advance
  advance-more e = ground arith

module _ (answer : ℕ → BankResponse) where
  -- One accepted transfer, with the rest of the loop.
  drive-step :
      (fuel k : ℕ) (u : Upload) (id s : Text) (rest : List Text)
      → IsOk (answer k)
      → u.phase ≡ Phase.transfer
      → u.transaction_id ≡ some id
      → From u.segments u.cursor s rest
      → drive answer (suc fuel) k u
        ≡ also_sent
            (transfer_request id (u.cursor + 1) (u.cursor + 1 == length u.segments) (some s))
            (drive answer fuel (k + 1) (advance (answer k) u).1)
  unfolding drive
  drive-step fuel k u id s rest h p t f =
      rw (next_request-transfer u id s rest p t f, feed_response-transfer (answer k) u id h p)

  drive-done :
      (fuel k : ℕ) (u : Upload)
      → u.phase ≡ Phase.done
      → drive answer (suc fuel) k u ≡ some (record { sent = []; end = submitted; final = u })
  unfolding drive next_request end_of
  drive-done fuel k u p = simp (p)

  drive-transfers :
      (rest : List Text) (fuel k : ℕ) (u : Upload) (id s : Text)
      → ((j : ℕ) → IsOk (answer j))
      → u.phase ≡ Phase.transfer
      → u.transaction_id ≡ some id
      → drop u.cursor u.segments ≡ s ∷ rest
      → length rest + 1 < fuel
      → (run : Run) × (drive answer fuel k u ≡ some run)
        × (run.sent ≡ transfers id (suc u.cursor) (s ∷ rest))
        × (run.end ≡ submitted)
  drive-transfers rest zero k u id s h p t d m = elim m [ ]
  drive-transfers rest (suc zero) k u id s h p t d m = absurd (omega arith)
  drive-transfers [] (suc (suc fuel)) k u id s h p t d m =
      let f = From-drop u.segments u.cursor d in
      let u' = (advance (answer k) u).1 in
      (
        record {
          sent = transfer_request id (suc u.cursor) true (some s) ∷ [];
          end = submitted;
          final = u';
        },
        rw (drive-step (suc fuel) k u id s [] (h k) p t f) (
            rw (drive-done fuel (k + 1) u' (advance-last (answer k) u p (omega (arith, f.total))))
              (ground (arith, f.total))),
        unfold transfers in refl,
        refl,
      )
  drive-transfers (s' ∷ rest) (suc (suc fuel)) k u id s h p t d m =
      let f = From-drop u.segments u.cursor d in
      let u' = (advance (answer k) u).1 in
      let a = advance-more (answer k) u p (omega (arith, f.total)) in
      let ih =
        drive-transfers rest (suc fuel) (k + 1) u' id s' h a.0 (a.1 ∙ t) (rw (a.2, a.3) f.after)
          (omega arith) in
      (
        record ih.0 { sent = transfer_request id (suc u.cursor) false (some s) ∷ ih.0.sent },
        rw (drive-step (suc fuel) k u id s (s' ∷ rest) (h k) p t f)
            (rw ih.1 (ground (arith, f.total))),
        ap (λ l. transfer_request id (suc u.cursor) false (some s) ∷ l)
              (ih.2 ∙ ap (λ c. transfers id (suc c) (s' ∷ rest)) a.2)
            ∙ sym (transfers-more id (suc u.cursor) s s' rest),
        ih.3,
      )

feed_response-sync :
    (r : BankResponse) (u : Upload) (p : ℕ) (id : Text)
    → IsSync r
    → r.segment_number ≡ some (pos p)
    → u.transaction_id ≡ some id
    → (feed_response upload_direction r u).1
      ≡ record u { shared = record u.shared { cursor = p; phase = Phase.transfer } }
unfolding feed_response resume_at
feed_response-sync r u p id sync n t = rw (IsSync-needs_recovery sync) (ground arith)

-- The object of a new transaction.
abbrev pub fresh : List Text → Upload
fresh segments = record { shared = opening; segments = segments; order_id = none }

feed_response-opening :
    (r : BankResponse) (segments : List Text) (c : ℕ) (id : Text)
    → IsOk r
    → r.transaction_id ≡ some (c ∷ id)
    → feed_response upload_direction r (fresh segments) ≡ (
      ok r,
      record {
        shared = record { transaction_id = some (c ∷ id); phase = Phase.transfer; cursor = 0 };
        segments = segments;
        order_id = or_text r.order_id none;
      },
    )
feed_response-opening r segments c id h t =
    feed_response-ok r (fresh segments) [] h ∙ (unfold feed_step advance in rw t)

-- If the bank answers every exchange with 000000 and the opening one with a TransactionID, an upload
-- of at least one segment ends as submitted on any fuel above the number of segments and one, and
-- has sent exactly its segments: once each, in order, numbered from 1 under that id, with
-- `lastSegment` on the last one alone.
pub run_upload-sends :
    (answer : ℕ → BankResponse) (s : Text) (rest : List Text) (c : ℕ) (id : Text) (fuel : ℕ)
    → ((k : ℕ) → IsOk (answer k))
    → (answer 0).transaction_id ≡ some (c ∷ id)
    → length (s ∷ rest) < fuel
    → (run : Run) × (run_upload answer fuel (fresh (s ∷ rest)) ≡ some run)
      × (run.sent ≡ transfers (c ∷ id) 1 (s ∷ rest))
      × (run.end ≡ submitted)
unfolding run_upload
run_upload-sends answer s rest c id fuel h t m =
    rw (feed_response-opening (answer 0) (s ∷ rest) c id (h 0) t)
      (drive-transfers answer rest fuel 1 _ (c ∷ id) s h refl refl refl (omega arith))

-- After a response 061101 whose recovery point lies before the end, the loop sends exactly the
-- segments behind that point and ends as submitted, wherever the object believed the transfer to be,
-- if the bank takes every step from there on.
pub drive-resumes :
    (answer : ℕ → BankResponse) (r : BankResponse) (u : Upload) (p fuel k : ℕ) (id s : Text)
    (rest : List Text)
    → IsSync r
    → r.segment_number ≡ some (pos p)
    → u.transaction_id ≡ some id
    → drop p u.segments ≡ s ∷ rest
    → ((j : ℕ) → IsOk (answer j))
    → length rest + 1 < fuel
    → (run : Run) × (drive answer fuel k (feed_response upload_direction r u).1 ≡ some run)
      × (run.sent ≡ transfers id (suc p) (s ∷ rest))
      × (run.end ≡ submitted)
drive-resumes answer r u p fuel k id s rest sync n t d h m =
    rw (feed_response-sync r u p id sync n t) (
      drive-transfers answer rest fuel k
        (record u { shared = record u.shared { cursor = p; phase = Phase.transfer } }) id s h refl t
        d m)
