-- ===== src/Ebics/Transaction/Download.antt =====
-- `DownloadTransaction` of painfree/ebics3/transaction.py.
pub mod Unpack
pub mod Receiving
pub mod Delivery
use painfree_ebics_middlewar.Prelude.{
  ℕ, zero, suc, ◌+◌, ◌-◌, Text, ℤ, pos, negsuc, Bool, true, false, ◌==◌, Option, none, some, List,
  [], ◌∷◌, ◌++◌, concat, take, if◌then◌else◌,
}
use painfree_ebics_middlewar.Ebics.Errors.{Error, TransactionFault, Result, ok, err, ◌>>=◌}
use painfree_ebics_middlewar.Ebics.Responses.{BankResponse}
use painfree_ebics_middlewar.Ebics.Transaction.Feed.{
  Phase, Transaction, opening, Request, transfer_request, receipt_request, Outcome, resume_at,
  require_transaction, Direction, feed_response,
}
use painfree_ebics_middlewar.Ebics.Transaction.Download.Unpack.{StoreFault, Storage, store}

pub record Download : Type 0 where
  pub shared : Transaction
  pub open shared use *
  pub has_encryption_key : Bool
  pub num_segments : Option ℤ
  pub segments : List Text
  pub transaction_key_encrypted : Option Text
  pub acknowledged : Bool

abbrev pub fresh : Download
fresh = record {
  shared = opening;
  has_encryption_key = true;
  num_segments = none;
  segments = [];
  transaction_key_encrypted = none;
  acknowledged = true;
}

-- `resume_at`: `super().resume_at(n)`, then `del self.segments[n:]`.
unfoldable pub resume_download : ℤ → Download → Outcome Unit Download
unfolding resume_at
resume_download (negsuc n) d = ((resume_at (negsuc n) d.shared).0, d)
resume_download (pos n) d =
    let (result, t) = resume_at (pos n) d.shared in
    (result, record d { shared = t; segments = take n d.segments })

-- `number == self.num_segments`, a number against an `int` or `None`.
abbrev is_number : ℕ → Option ℤ → Bool
is_number n none = false
is_number n (some (pos m)) = n == m
is_number n (some (negsuc m)) = false

-- `next_request`.
request_in : Phase → Download → Result (Option Request)
request_in Phase.transfer d = do
  id ← require_transaction d.shared
  ok (some (transfer_request id (d.cursor + 1) (is_number (d.cursor + 1) d.num_segments) none))
request_in Phase.receipt d = do
  id ← require_transaction d.shared
  ok (some (receipt_request id d.acknowledged))
request_in _ d = ok none

unfoldable pub next_request : Download → Result (Option Request)
unfolding request_in
next_request d = request_in d.phase d

-- `response.segment_number not in (None, self.cursor + 1)`.
abbrev is_unexpected : ℕ → Option ℤ → Bool
is_unexpected n none = false
is_unexpected n (some (pos m)) = if n == m then false else true
is_unexpected n (some (negsuc m)) = true

abbrev is_last : Option Bool → Bool
is_last none = false
is_last (some b) = b

-- The end of `_advance`, for the order data of the response.
abbrev store_segment : BankResponse → Option Text → Download → Outcome Unit Download
store_segment r none d =
    (err (Error.transaction (TransactionFault.no_order_data (d.cursor + 1))), d)
store_segment r (some order_data) d = (
  ok tt,
  record d {
    shared = record d.shared {
      cursor = d.cursor + 1;
      phase = if is_last r.last_segment then Phase.receipt else Phase.transfer;
    };
    segments = d.segments ++ order_data ∷ [];
  },
)

abbrev got : Option ℤ → ℤ
got none = pos 0
got (some n) = n

advance_in : Phase → BankResponse → Download → Outcome Unit Download
advance_in Phase.receipt r d = (ok tt, record d { shared = record d.shared { phase = Phase.done } })
advance_in Phase.initialisation r d = store_segment r r.order_data (record d {
  num_segments = r.num_segments;
  transaction_key_encrypted = r.transaction_key_encrypted;
})
advance_in phase r d =
    if is_unexpected (d.cursor + 1) r.segment_number
    then (
      err (
          Error.transaction
            (TransactionFault.unexpected_segment (d.cursor + 1) (got r.segment_number))),
      d,
    )
    else store_segment r r.order_data d

-- `_advance`.
unfoldable pub advance : BankResponse → Download → Outcome Unit Download
unfolding advance_in
advance r d = advance_in d.phase r d

abbrev pub download_direction : Direction Download
download_direction = record {
  shared = λ d. d.shared;
  with_shared = λ d t. record d { shared = t };
  resume = resume_download;
  advance = advance;
}

-- `order_data`, over `open_order_data` with the key that the object holds.
unfoldable pub order_data : (Text → Text → Result Text) → Download → Result Text
order_data open_order_data d = elim d.transaction_key_encrypted [
  | none ↦ err (Error.transaction TransactionFault.no_transaction_key)
  | some key ↦
      if d.has_encryption_key
      then open_order_data (concat d.segments) key
      else err (Error.transaction TransactionFault.no_encryption_key)
]

-- How a run of the downloader ends: the bank had nothing, or the payload with whether the receipt
-- was taken, or what was raised while it was stored, or before.
pub data End : Type 0 where
  empty : End
  complete : (payload : Text) → (acknowledged : Bool) → End
  not_stored : StoreFault → End
  raised : Error → End

-- What was sent after the opening request, in order, how it ended, and the object it left.
pub record Run : Type 0 where
  pub sent : List Request
  pub end : End
  pub final : Download

abbrev pub also_sent : Request → Option Run → Option Run
also_sent q none = none
also_sent q (some run) = some (record run { sent = q ∷ run.sent })

abbrev pub is_transfer : Phase → Bool
is_transfer Phase.transfer = true
is_transfer _ = false

abbrev pub is_receipt : Phase → Bool
is_receipt Phase.receipt = true
is_receipt _ = false

abbrev pub is_done : Phase → Bool
is_done Phase.done = true
is_done _ = false

module _ (open_order_data : Text → Text → Result Text) (storage : Storage)
    (answer : ℕ → BankResponse) where
  abbrev after_receipt : Text → List Request → Outcome BankResponse Download → Run
  after_receipt payload sent (err e, d) = record { sent = sent; end = raised e; final = d }
  after_receipt payload sent (ok _, d) = record {
    sent = sent;
    end = complete payload (is_done d.phase);
    final = d;
  }

  abbrev post_receipt : ℕ → Text → Download → Result (Option Request) → Run
  post_receipt k payload d (err e) = record { sent = []; end = raised e; final = d }
  post_receipt k payload d (ok none) =
      after_receipt payload [] (feed_response download_direction (answer k) d)
  post_receipt k payload d (ok (some q)) =
      after_receipt payload (q ∷ []) (feed_response download_direction (answer k) d)

  abbrev acknowledge : ℕ → Text → Download → Run
  acknowledge k payload d =
      if is_receipt d.phase
      then post_receipt k payload d (next_request d)
      else record { sent = []; end = complete payload false; final = d }

  abbrev pub after_store : ℕ → Text → Download → Option StoreFault → Run
  after_store k payload d (some fault) = record { sent = []; end = not_stored fault; final = d }
  after_store k payload d none = acknowledge k payload d

  abbrev after_opened : ℕ → Download → Result Text → Run
  after_opened k d (err e) = record { sent = []; end = raised e; final = d }
  after_opened k d (ok payload) = after_store k payload d (store storage payload)

  -- What follows the loop: the payload is opened and stored, and then the receipt is sent in the
  -- receipt phase.
  unfoldable pub finish : ℕ → Download → Run
  finish k d = elim d.segments [
    | [] ↦ record { sent = []; end = empty; final = d }
    | _ ↦ after_opened k d (order_data open_order_data d)
  ]

  abbrev after_feed : Request → Outcome BankResponse Download → (Download → Option Run) → Option Run
  after_feed q (err e, d) loop = some (record { sent = q ∷ []; end = raised e; final = d })
  after_feed q (ok _, d) loop = also_sent q (loop d)

  abbrev after_request :
      ℕ → Result (Option Request) → Download → (Request → Option Run) → Option Run
  after_request k (err e) d post = some (record { sent = []; end = raised e; final = d })
  after_request k (ok none) d post = some (finish k d)
  after_request k (ok (some q)) d post = post q

  -- `while transaction.phase is Phase.TRANSFER`; `none` means that the fuel ran out.
  unfoldable pub collect : ℕ → ℕ → Download → Option Run
  collect zero k d = none
  collect (suc fuel) k d =
      let rest =
        after_request k (next_request d) d λ q.
          after_feed q (feed_response download_direction (answer k) d) (collect fuel (k + 1)) in
      if is_transfer d.phase then rest else some (finish k d)

  abbrev after_opening : ℕ → Outcome BankResponse Download → Option Run
  after_opening fuel (err e, d) = some (record { sent = []; end = raised e; final = d })
  after_opening fuel (ok _, d) = collect fuel 1 d

  -- `_download`: the opening exchange, the loop, and the receipt.
  unfoldable pub run_download : ℕ → Download → Option Run
  run_download fuel d = after_opening fuel (feed_response download_direction (answer 0) d)
