-- ===== src/Ebics/Transaction/Download/Receiving.antt =====
-- What a download holds after each answer: the segments that it counts, and its identity.
use painfree_ebics_middlewar.Prelude.{
  ℕ, ◌+◌, ◌≤◌, ◌<◌, Text, pos, negsuc, true, false, length, length-append, length-take, take,
  take_all, Option, none, some, is_some, Bool, Option-cases, inl, inr, ℤ, [], ◌∷◌, ◌≡◌, ◌≢◌, refl,
  arith,
}
use painfree_ebics_middlewar.Ebics.Errors.{ok}
use painfree_ebics_middlewar.Ebics.Responses.{BankResponse, classify, status_needs_recovery}
use painfree_ebics_middlewar.Ebics.Responses.Accepted.{IsSync, IsSync-needs_recovery}
use painfree_ebics_middlewar.Ebics.Transaction.Feed.{
  Phase, is_truthy, is_initialisation, Request, transfer_request, receipt_request, recovery_point,
  require_transaction, feed_response,
}
use painfree_ebics_middlewar.Ebics.Transaction.Feed.Keeps.{feed_response-keeps}
use painfree_ebics_middlewar.Ebics.Transaction.Download.{
  Download, download_direction, resume_download, advance, next_request, is_number, request_in,
}

abbrev pub is_due : Phase → Bool
is_due Phase.transfer = true
is_due Phase.receipt = true
is_due _ = false

-- The cursor counts the segments that are held.
abbrev pub IsAligned : Download → Type 0
IsAligned d = d.cursor ≡ length d.segments

resume_download-IsAligned :
    (d : Download) (n : ℕ) → IsAligned d → n ≤ d.cursor → IsAligned (resume_download (pos n) d).1
unfolding resume_download
resume_download-IsAligned d n a h = omega (arith, length-take n d.segments)

advance-IsAligned : (r : BankResponse) (d : Download) → IsAligned d → IsAligned (advance r d).1
unfolding advance
advance-IsAligned r d a = elim (Option-cases r.order_data) [
  | inl e ↦ ground arith
  | inr (x, e) ↦ ground (arith, length-append d.segments (x ∷ []))
]

resume-IsAligned :
    (d : Download) (p : ℤ)
    → IsAligned d
    → ((n : ℕ) → p ≡ pos n → n ≤ d.cursor)
    → IsAligned (resume_download p d).1
unfolding resume_download
resume-IsAligned d (pos n) a h = resume_download-IsAligned d n a (h n refl)
resume-IsAligned d (negsuc n) a h = a

-- Every answer whose recovery point, if it offers one, is not ahead of the cursor keeps the count
-- right; that holds on every other branch of `feed` too, the errors included.
pub feed_response-IsAligned :
    (r : BankResponse) (d : Download)
    → IsAligned d
    → ((n : ℕ)
        → status_needs_recovery (classify r) ≡ true
        → recovery_point r ≡ pos n
        → n ≤ d.cursor)
    → IsAligned (feed_response download_direction r d).1
feed_response-IsAligned r d a h =
    feed_response-keeps download_direction IsAligned r d a
      (λ sync _. resume-IsAligned d (recovery_point r) a (λ n. h n sync)) a
      (λ _.
        advance-IsAligned r
          (record d { shared = record d.shared { transaction_id = r.transaction_id } }) a)
      (λ _. advance-IsAligned r d a)

feed_response-sync :
    (r : BankResponse) (d : Download) (n : ℕ) (id : Text)
    → IsSync r
    → r.segment_number ≡ some (pos n)
    → d.transaction_id ≡ some id
    → (feed_response download_direction r d).1 ≡ record d {
      shared = record d.shared { cursor = n; phase = Phase.transfer };
      segments = take n d.segments;
    }
unfolding feed_response resume_download
feed_response-sync r d n id sync e t = rw (IsSync-needs_recovery sync) (ground arith)

-- A recovery point ahead of the cursor is followed too: the cursor moves past segments that were
-- never received, the next request asks for the segment behind it, and what is held is unchanged
-- and shorter than the cursor says.
pub feed_response-skips :
    (r : BankResponse) (d : Download) (n : ℕ) (id : Text)
    → IsAligned d
    → IsSync r
    → r.segment_number ≡ some (pos n)
    → d.transaction_id ≡ some id
    → d.cursor < n
    → let d' = (feed_response download_direction r d).1 in
      (next_request d'
        ≡ ok (some (transfer_request id (n + 1) (is_number (n + 1) d.num_segments) none)))
      × (d'.segments ≡ d.segments)
      × (length d'.segments < d'.cursor)
unfolding next_request require_transaction
feed_response-skips r d n id a sync e t h =
    rw (feed_response-sync r d n id sync e t)
      (rw (take_all n d.segments (omega arith)) (rw t refl, refl, omega arith))

-- A transfer or a receipt is only ever due in a transaction that the bank has named.
abbrev pub IsNamed : Download → Type 0
IsNamed d = is_due d.phase ≡ true → is_some d.transaction_id ≡ true

transaction_id-advance :
    (r : BankResponse) (d : Download) → (advance r d).1.transaction_id ≡ d.transaction_id
unfolding advance
transaction_id-advance r d = ground arith

resume-IsNamed :
    (d : Download) (p : ℤ) → is_some d.transaction_id ≡ true → IsNamed (resume_download p d).1
unfolding resume_download
resume-IsNamed d (pos n) h = λ _. h
resume-IsNamed d (negsuc n) h = λ _. h

advance-IsNamed :
    (r : BankResponse) (d : Download) → is_some d.transaction_id ≡ true → IsNamed (advance r d).1
advance-IsNamed r d h = λ _. rw transaction_id-advance h

is_some_of_truthy : (o : Option Text) → is_truthy o ≡ true → is_some o ≡ true
is_some_of_truthy o h = ground arith

is_due_of : (p : Phase) → is_initialisation p ≡ false → p ≢ Phase.done → is_due p ≡ true
is_due_of p h k = ground arith

feed_response-IsNamed :
    (r : BankResponse) (d : Download)
    → IsNamed d
    → d.phase ≢ Phase.done
    → IsNamed (feed_response download_direction r d).1
feed_response-IsNamed r d h p =
    feed_response-keeps download_direction IsNamed r d h (λ _. resume-IsNamed d (recovery_point r))
      (λ due. cc) (λ named. advance-IsNamed r _ (is_some_of_truthy r.transaction_id named))
      (λ i. advance-IsNamed r d (h (is_due_of d.phase i p)))

request_in-total :
    (p : Phase) (d : Download)
    → (is_due p ≡ true → is_some d.transaction_id ≡ true)
    → (o : Option Request) × (request_in p d ≡ ok o)
unfolding request_in require_transaction
request_in-total Phase.transfer d h = elim (Option-cases d.transaction_id) [
  | inl e ↦ absurd (ground (arith, h refl))
  | inr (id, e) ↦ (
    some (transfer_request id (d.cursor + 1) (is_number (d.cursor + 1) d.num_segments) none),
    rw e refl,
  )
]
request_in-total Phase.receipt d h = elim (Option-cases d.transaction_id) [
  | inl e ↦ absurd (ground (arith, h refl))
  | inr (id, e) ↦ (some (receipt_request id d.acknowledged), rw e refl)
]
request_in-total _ d h = (none, refl)

-- In every phase but the last one, whatever the bank answers and whether or not `feed` raises, the
-- next request can be made without an error afterwards, if a transaction was named wherever one
-- was due before.
pub next_request-feed_response :
    (r : BankResponse) (d : Download)
    → IsNamed d
    → d.phase ≢ Phase.done
    → (o : Option Request) × (next_request (feed_response download_direction r d).1 ≡ ok o)
unfolding next_request
next_request-feed_response r d h p =
    let d' = (feed_response download_direction r d).1 in
    request_in-total d'.phase d' (feed_response-IsNamed r d h p)
