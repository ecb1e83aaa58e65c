-- ===== src/Ebics/Transaction/Upload.antt =====
-- `UploadTransaction` of painfree/ebics3/transaction.py, and the worker's loop over it.
pub mod Sending
pub mod Delivery
pub mod Masking
use painfree_ebics_middlewar.Prelude.{
  ℕ, zero, suc, ◌+◌, Text, Bool, true, false, leb, ◌==◌, get_elem?, length, Option, none, some,
  List, [], ◌∷◌, if◌then◌else◌,
}
use painfree_ebics_middlewar.Ebics.Errors.{Error, Result, ok, err, ◌>>=◌}
use painfree_ebics_middlewar.Ebics.Responses.{BankResponse}
use painfree_ebics_middlewar.Ebics.Segments.{split_segments}
use painfree_ebics_middlewar.Ebics.Transaction.Feed.{
  Phase, Transaction, opening, Request, transfer_request, or_text, Outcome, resume_at,
  require_transaction, Direction, feed_response,
}

pub record Upload : Type 0 where
  pub shared : Transaction
  pub open shared use *
  pub segments : List Text
  pub order_id : Option Text

unfoldable pub num_segments : Upload → ℕ
num_segments u = length u.segments

-- `prepare`, over `SecuredOrderData.encrypt`.
unfoldable pub prepare : (Text → Text) → Text → ℕ → Result Upload
prepare encrypt order_content segment_size = do
  segments ← split_segments (encrypt order_content) segment_size
  ok (record { shared = opening; segments = segments; order_id = none })

abbrev is_transfer : Phase → Bool
is_transfer Phase.transfer = true
is_transfer _ = false

abbrev transfer_of : Upload → ℕ → Text → Result (Option Request)
transfer_of u number segment = do
  id ← require_transaction u.shared
  ok (some (transfer_request id number (number == length u.segments) (some segment)))

-- `none` is the end of the loop; the cursor is inside `segments` where the test passes.
unfoldable pub next_request : Upload → Result (Option Request)
unfolding require_transaction num_segments
next_request u =
    if is_transfer u.phase
    then elim (get_elem? u.segments u.cursor) [
      | none ↦ ok none
      | some segment ↦ transfer_of u (u.cursor + 1) segment
    ]
    else ok none

advance_upload : BankResponse → Upload → Phase → Upload
advance_upload r u Phase.initialisation = record u {
  shared = record u.shared { phase = Phase.transfer };
  order_id = or_text r.order_id u.order_id;
}
advance_upload r u phase = record u {
  shared = record u.shared {
    cursor = u.cursor + 1;
    phase = if leb (length u.segments) (u.cursor + 1) then Phase.done else u.phase;
  };
  order_id = or_text r.order_id u.order_id;
}

-- `_advance`.
unfoldable pub advance : BankResponse → Upload → Outcome Unit Upload
unfolding advance_upload
advance r u = (ok tt, advance_upload r u u.phase)

abbrev pub upload_direction : Direction Upload
upload_direction = record {
  shared = λ u. u.shared;
  with_shared = λ u t. record u { shared = t };
  resume = λ n u. let (result, t) = resume_at n u.shared in (result, record u { shared = t });
  advance = advance;
}

-- How a run of the worker's `_upload` ends.
pub data End : Type 0 where
  submitted : End
  stopped : Phase → End
  raised : Error → End

-- What was sent after the opening request, in order, how it ended, and the object it left.
pub record Run : Type 0 where
  pub sent : List Request
  pub end : End
  pub final : Upload

abbrev pub also_sent : Request → Option Run → Option Run
also_sent q none = none
also_sent q (some run) = some (record run { sent = q ∷ run.sent })

-- `if transaction.phase is not Phase.DONE: raise UploadFailed`.
unfoldable pub end_of : Phase → End
end_of Phase.done = submitted
end_of phase = stopped phase

-- One answer fed, and the rest of the loop from the object it leaves.
abbrev pub after_feed : Request → Outcome BankResponse Upload → (Upload → Option Run) → Option Run
after_feed q (err e, u) loop = some (record { sent = q ∷ []; end = raised e; final = u })
after_feed q (ok _, u) loop = also_sent q (loop u)

abbrev pub after_request : Result (Option Request) → Upload → (Request → Option Run) → Option Run
after_request (err e) u post = some (record { sent = []; end = raised e; final = u })
after_request (ok none) u post = some (record { sent = []; end = end_of u.phase; final = u })
after_request (ok (some q)) u post = post q

-- The same round, as what it posts.
abbrev pub posts : Result (Option Request) → (Request → List Request) → List Request
posts (err e) later = []
posts (ok none) later = []
posts (ok (some q)) later = q ∷ later q

abbrev pub posts_after : Outcome BankResponse Upload → (Upload → List Request) → List Request
posts_after (err e, u) loop = []
posts_after (ok _, u) loop = loop u

-- `while (request := transaction.next_request()) is not None`: each request is posted and its
-- answer is fed. The bank answers its exchanges in order; `none` means that the fuel ran out.
module _ (answer : ℕ → BankResponse) where
  unfoldable pub drive : ℕ → ℕ → Upload → Option Run
  drive zero k u = none
  drive (suc fuel) k u =
      after_request (next_request u) u
        λ q. after_feed q (feed_response upload_direction (answer k) u) (drive fuel (k + 1))

  -- What the loop posts in so many rounds, also if it does not end in them.
  unfoldable pub posted : ℕ → ℕ → Upload → List Request
  posted zero k u = []
  posted (suc rounds) k u =
      posts (next_request u)
        λ q. posts_after (feed_response upload_direction (answer k) u) (posted rounds (k + 1))

  abbrev after_opening : ℕ → Outcome BankResponse Upload → Option Run
  after_opening fuel (err e, u) = some (record { sent = []; end = raised e; final = u })
  after_opening fuel (ok _, u) = drive fuel 1 u

  -- `_upload`: the opening exchange, then the loop.
  unfoldable pub run_upload : ℕ → Upload → Option Run
  run_upload fuel u = after_opening fuel (feed_response upload_direction (answer 0) u)
