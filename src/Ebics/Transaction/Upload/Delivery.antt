-- ===== src/Ebics/Transaction/Upload/Delivery.antt =====
-- What every run of an upload keeps, whatever the bank answers, and what a whole run delivers.
use painfree_ebics_middlewar.Prelude.{
  ℕ, zero, suc, ◌+◌, ◌-◌, ◌≤◌, ◌<◌, ◌%◌, Text, ◌==◌, get_elem?, lt_of_get_elem?, length, concat,
  All, Option, none, some, List, [], ◌∷◌, ◌≡◌, refl, ap, arith,
}
use painfree_ebics_middlewar.Ebics.Errors.{Result, ok, err}
use painfree_ebics_middlewar.Ebics.Responses.{BankResponse}
use painfree_ebics_middlewar.Ebics.Responses.Accepted.{IsOk}
use painfree_ebics_middlewar.Ebics.Segments.Laws.{concat-split_segments}
use painfree_ebics_middlewar.Ebics.Transaction.Feed.{
  Request, transfer_request, receipt_request, Outcome, resume_at, feed_step, feed_response,
}
use painfree_ebics_middlewar.Ebics.Transaction.Upload.{
  Upload, Run, submitted, also_sent, posts, posts_after, posted, upload_direction, next_request,
  advance, drive, after_feed, after_request, run_upload, prepare,
}
use painfree_ebics_middlewar.Ebics.Transaction.Upload.Sending.{transfers, fresh, run_upload-sends}

-- The request carries the segment of its number, and says that it is the last one exactly when it
-- is.
abbrev pub Carries : List Text → Request → Type 0
Carries segments (transfer_request id number last carried) =
    (0 < number)
    × (number ≤ length segments)
    × (carried ≡ get_elem? segments (number - 1))
    × (last ≡ (number == length segments))
Carries segments (receipt_request id acknowledged) = ⊥

-- No answer, an error included, changes the segments.
segments-feed_response :
    (r : BankResponse) (u : Upload) → (feed_response upload_direction r u).1.segments ≡ u.segments
unfolding feed_response feed_step advance resume_at
segments-feed_response r u = ground arith

Carries-transfer :
    (u : Upload) (o : Option Text) {q : Request}
    → get_elem? u.segments u.cursor ≡ o
    → next_request u ≡ ok (some q)
    → Carries u.segments q
unfolding next_request
Carries-transfer u none e h = ground arith
Carries-transfer u (some s) e h = ground (arith, lt_of_get_elem? u.segments u.cursor e)

posts-Carries :
    (segments : List Text) (n : Result (Option Request)) (later : Request → List Request)
    → ((q : Request) → n ≡ ok (some q) → Carries segments q × All (Carries segments) (later q))
    → All (Carries segments) (posts n later)
posts-Carries segments (err e) later h = tt
posts-Carries segments (ok none) later h = tt
posts-Carries segments (ok (some q)) later h = h q refl

posts_after-Carries :
    (segments : List Text) (o : Outcome BankResponse Upload) (loop : Upload → List Request)
    → All (Carries segments) (loop o.1)
    → All (Carries segments) (posts_after o loop)
posts_after-Carries segments (err e, u) loop h = tt
posts_after-Carries segments (ok r, u) loop h = h

-- A run of the loop that ended sent these requests.
abbrev pub SendsAll : Option Run → List Request → Type 0
SendsAll none qs = Unit
SendsAll (some run) qs = run.sent ≡ qs

also_sent-SendsAll :
    (q : Request) (o : Option Run) (qs : List Request)
    → SendsAll o qs
    → SendsAll (also_sent q o) (q ∷ qs)
also_sent-SendsAll q none qs h = tt
also_sent-SendsAll q (some run) qs h = ap (λ l. q ∷ l) h

after_feed-SendsAll :
    (q : Request) (o : Outcome BankResponse Upload) (loop : Upload → Option Run)
    (later : Upload → List Request)
    → SendsAll (loop o.1) (later o.1)
    → SendsAll (after_feed q o loop) (q ∷ posts_after o later)
after_feed-SendsAll q (err e, u) loop later h = refl
after_feed-SendsAll q (ok r, u) loop later h = also_sent-SendsAll q (loop u) (later u) h

after_request-SendsAll :
    (n : Result (Option Request)) (u : Upload) (post : Request → Option Run)
    (later : Request → List Request)
    → ((q : Request) → SendsAll (post q) (q ∷ later q))
    → SendsAll (after_request n u post) (posts n later)
after_request-SendsAll (err e) u post later h = refl
after_request-SendsAll (ok none) u post later h = refl
after_request-SendsAll (ok (some q)) u post later h = h q

module _ (answer : ℕ → BankResponse) where
  posted-Carries : (rounds k : ℕ) (u : Upload) → All (Carries u.segments) (posted answer rounds k u)
  unfolding posted
  posted-Carries zero k u = tt
  posted-Carries (suc rounds) k u =
      let o = feed_response upload_direction (answer k) u in
      let ih = posted-Carries rounds (k + 1) o.1 in
      posts-Carries u.segments (next_request u) _ λ q e. (
        Carries-transfer u _ refl e,
        posts_after-Carries u.segments o (posted answer rounds (k + 1))
            (rw (segments-feed_response (answer k) u) at ih),
      )

  drive-posted :
      (rounds k : ℕ) (u : Upload) → SendsAll (drive answer rounds k u) (posted answer rounds k u)
  unfolding drive posted
  drive-posted zero k u = tt
  drive-posted (suc rounds) k u =
      let o = feed_response upload_direction (answer k) u in
      after_request-SendsAll (next_request u) u _ _ λ q.
        after_feed-SendsAll q o (drive answer rounds (k + 1)) (posted answer rounds (k + 1))
          (drive-posted rounds (k + 1) o.1)

-- Whatever the bank answers (refusals, recovery points and malformed steps included), wherever the
-- object stands, and whether the loop ends or goes on for ever: each request that it posts in any number
-- of rounds carries exactly the segment of its number, and says `lastSegment` exactly on the highest
-- number. A run that ended within these rounds sent these requests and no others.
pub drive-Carries :
    (answer : ℕ → BankResponse) (rounds k : ℕ) (u : Upload)
    → All (Carries u.segments) (posted answer rounds k u)
      × SendsAll (drive answer rounds k u) (posted answer rounds k u)
drive-Carries answer rounds k u = (posted-Carries answer rounds k u, drive-posted answer rounds k u)

-- The order data that a request carries.
pub carried : List Request → List Text
carried [] = []
carried (transfer_request id number last (some s) ∷ qs) = s ∷ carried qs
carried (transfer_request id number last none ∷ qs) = carried qs
carried (receipt_request id acknowledged ∷ qs) = carried qs

carried-transfers :
    (id : Text) (n : ℕ) (segments : List Text) → carried (transfers id n segments) ≡ segments
unfolding carried transfers
carried-transfers id n [] = refl
carried-transfers id n (s ∷ []) = refl
carried-transfers id n (s ∷ t ∷ rest) = ap (λ l. s ∷ l) (carried-transfers id (suc n) (t ∷ rest))

run_upload-carries :
    (answer : ℕ → BankResponse) (segments : List Text) (c : ℕ) (id : Text)
    → 0 < length segments
    → ((k : ℕ) → IsOk (answer k))
    → (answer 0).transaction_id ≡ some (c ∷ id)
    → (run : Run) × (run_upload answer (length segments + 1) (fresh segments) ≡ some run)
      × (run.end ≡ submitted)
      × (carried run.sent ≡ segments)
run_upload-carries answer [] c id more h t = absurd (omega arith)
run_upload-carries answer (s ∷ rest) c id more h t =
    let (run, ran, sent, ended) =
      run_upload-sends answer s rest c id (length (s ∷ rest) + 1) h t (omega arith) in
    (run, ran, ended, rw sent (carried-transfers (c ∷ id) 1 (s ∷ rest)))

-- An order prepared with a positive segment size that is a multiple of 4 reaches a bank that takes
-- every step whole: with enough fuel the upload ends as submitted, and the order data that it
-- sent, joined in the order of sending, is the encrypted order.
pub prepare-run_upload :
    (encrypt : Text → Text) (content : Text) (size : ℕ) (answer : ℕ → BankResponse) (c : ℕ)
    (id : Text)
    → 0 < size
    → size % 4 ≡ 0
    → ((k : ℕ) → IsOk (answer k))
    → (answer 0).transaction_id ≡ some (c ∷ id)
    → (u : Upload) × (run : Run) × (prepare encrypt content size ≡ ok u)
      × (run_upload answer (length u.segments + 1) u ≡ some run)
      × (run.end ≡ submitted)
      × (concat (carried run.sent) ≡ encrypt content)
unfolding prepare
prepare-run_upload encrypt content size answer c id p q h t =
    let (segments, split, whole, full, more) = concat-split_segments (encrypt content) size p q in
    let (run, ran, ended, sent) = run_upload-carries answer segments c id more h t in
    (fresh segments, run, rw split, ran, ended, rw sent whole)
