-- ===== src/Ebics/Transaction/Download/Delivery.antt =====
-- A whole download, for a bank that serves every segment.
use painfree_ebics_middlewar.Prelude.{
  ℕ, zero, suc, ◌+◌, ◌<◌, Text, ℤ, pos, Bool, true, false, length, concat, Option, none, some, List,
  [], ◌∷◌, ◌++◌, ◌≡◌, refl, ◌∙◌, ap, arith, length-append,
}
use mathlib.Core.List.{append_assoc}
use painfree_ebics_middlewar.Ebics.Errors.{Result, ok}
use painfree_ebics_middlewar.Ebics.Responses.{BankResponse}
use painfree_ebics_middlewar.Ebics.Responses.Accepted.{
  IsOk, IsOk-needs_recovery, IsOk-ends_transaction, IsOk-raise_for_status, IsAcknowledged,
  IsAcknowledged-status,
}
use painfree_ebics_middlewar.Ebics.Transaction.Feed.{
  Phase, Request, transfer_request, receipt_request, feed_step, feed_response, require_transaction,
}
use painfree_ebics_middlewar.Ebics.Transaction.Download.{
  Download, Run, End, complete, not_stored, after_store, fresh, download_direction, advance,
  next_request, is_number, order_data, finish, collect, run_download, also_sent,
}
use painfree_ebics_middlewar.Ebics.Transaction.Download.Unpack.{StoreFault, Storage, store}

abbrev is_nil : List Text → Bool
is_nil [] = true
is_nil (p ∷ rest) = false

-- The bank's answers from exchange k on serve these pieces of the payload: each is accepted, is
-- numbered from k + 1 and says `lastSegment` when nothing follows; then the receipt is taken.
abbrev pub Serves : (ℕ → BankResponse) → ℕ → List Text → Type 0
Serves answer k [] = IsAcknowledged (answer k)
Serves answer k (p ∷ rest) =
    IsOk (answer k)
    × ((answer k).order_data ≡ some p)
    × ((answer k).last_segment ≡ some (is_nil rest))
    × ((answer k).segment_number ≡ some (pos (k + 1)))
    × Serves answer (suc k) rest

-- The receipt is sent when the payload is stored, and the run says so.
abbrev pub receipts : Text → (stored : Option StoreFault) → List Request
receipts id none = receipt_request id true ∷ []
receipts id (some fault) = []

abbrev pub ended_with : (payload : Text) → (stored : Option StoreFault) → End
ended_with payload none = complete payload true
ended_with payload (some fault) = not_stored fault

-- What is asked of the bank for the pieces behind segment k, and the receipt.
unfoldable pub fetches : Option StoreFault → Text → Option ℤ → ℕ → List Text → List Request
fetches stored id announced k [] = receipts id stored
fetches stored id announced k (p ∷ rest) =
    transfer_request id (k + 1) (is_number (k + 1) announced) none
    ∷ fetches stored id announced (suc k) rest

-- A download under way that holds these segments.
abbrev under_way : Text → Text → Option ℤ → Phase → List Text → Download
under_way id key announced phase held = record {
  shared = record { transaction_id = some id; phase = phase; cursor = length held };
  has_encryption_key = true;
  num_segments = announced;
  segments = held;
  transaction_key_encrypted = some key;
  acknowledged = true;
}

length-snoc : (xs : List Text) (x : Text) → length (xs ++ x ∷ []) ≡ suc (length xs)
length-snoc xs x = omega (arith, length-append xs (x ∷ []))

abbrev phase_after : List Text → Phase
phase_after [] = Phase.receipt
phase_after (p ∷ rest) = Phase.transfer

module _ (answer : ℕ → BankResponse) (id key : Text) (announced : Option ℤ) where
  feed_response-part :
      (held : List Text) (p : Text) (rest : List Text)
      → Serves answer (length held) (p ∷ rest)
      → feed_response download_direction
          (answer (length held))
          (under_way id key announced Phase.transfer held)
        ≡ (
          ok (answer (length held)),
          under_way id key announced (phase_after rest) (held ++ p ∷ []),
        )
  unfolding feed_response feed_step advance
  feed_response-part held p rest (h, data_here, last, number, more) =
      rw
        (
          IsOk-needs_recovery h,
          IsOk-raise_for_status h,
          IsOk-ends_transaction h,
          number,
          data_here,
          last,
        )
        (ground (arith, length-append held (p ∷ [])))

  module _ (open_order_data : Text → Text → Result Text) (storage : Storage) (payload : Text)
      (stored : Option StoreFault) where
    finish-acknowledged :
        (k : ℕ) (p : Text) (held : List Text)
        → IsAcknowledged (answer k)
        → open_order_data (concat (p ∷ held)) key ≡ ok payload
        → store storage payload ≡ stored
        → let run =
            finish open_order_data storage answer k
              (under_way id key announced Phase.receipt (p ∷ held)) in
          (run.sent ≡ receipts id stored) × (run.end ≡ ended_with payload stored)
    unfolding finish order_data next_request feed_response require_transaction
    finish-acknowledged k p held h opened kept = rw (opened, kept) (by_store stored)
      where
        run_of : Option StoreFault → Run
        run_of result =
            after_store open_order_data storage answer k payload
              (under_way id key announced Phase.receipt (p ∷ held)) result

        by_store :
            (result : Option StoreFault)
            → ((run_of result).sent ≡ receipts id result)
              × ((run_of result).end ≡ ended_with payload result)
        by_store (some fault) = (refl, refl)
        by_store none =
            let (sync, raised, ends) = IsAcknowledged-status h in
            rw (sync, raised, ends) (refl, refl)

    finish-snoc :
        (k : ℕ) (held : List Text) (p : Text)
        → IsAcknowledged (answer k)
        → open_order_data (concat (held ++ p ∷ [])) key ≡ ok payload
        → store storage payload ≡ stored
        → let run =
            finish open_order_data storage answer k
              (under_way id key announced Phase.receipt (held ++ p ∷ [])) in
          (run.sent ≡ receipts id stored) × (run.end ≡ ended_with payload stored)
    finish-snoc k [] p h opened kept = finish-acknowledged k p [] h opened kept
    finish-snoc k (q ∷ held) p h opened kept =
        finish-acknowledged k q (held ++ p ∷ []) h opened kept

    collect-more :
        (fuel : ℕ) (held : List Text) (p : Text) (rest : List Text)
        → Serves answer (length held) (p ∷ rest)
        → collect open_order_data storage answer
            (suc fuel)
            (length held)
            (under_way id key announced Phase.transfer held)
          ≡ also_sent
              (transfer_request id (length held + 1) (is_number (length held + 1) announced) none)
              (collect open_order_data storage answer fuel
                (length (held ++ p ∷ []))
                (under_way id key announced (phase_after rest) (held ++ p ∷ [])))
    unfolding collect next_request require_transaction
    collect-more fuel held p rest s =
        rw (feed_response-part held p rest s, length-append held (p ∷ []))

    collect-finish :
        (fuel k : ℕ) (held : List Text)
        → collect open_order_data storage answer
            (suc fuel)
            k
            (under_way id key announced Phase.receipt held)
          ≡ some (
              finish open_order_data storage answer k
                (under_way id key announced Phase.receipt held))
    unfolding collect
    collect-finish fuel k held = refl

    collect-Serves :
        (rest : List Text) (fuel : ℕ) (held : List Text) (p : Text)
        → Serves answer (length held) (p ∷ rest)
        → open_order_data (concat (held ++ p ∷ rest)) key ≡ ok payload
        → store storage payload ≡ stored
        → length rest + 1 < fuel
        → (run : Run) × (collect open_order_data storage answer fuel
              (length held)
              (under_way id key announced Phase.transfer held)
            ≡ some run)
          × (run.sent ≡ fetches stored id announced (length held) (p ∷ rest))
          × (run.end ≡ ended_with payload stored)
    unfolding fetches
    collect-Serves rest zero held p s opened kept m = elim m [ ]
    collect-Serves rest (suc zero) held p s opened kept m = absurd (omega arith)
    collect-Serves [] (suc (suc fuel)) held p s opened kept m =
        let held' = held ++ p ∷ [] in
        let last =
          finish open_order_data storage answer (length held')
            (under_way id key announced Phase.receipt held') in
        let done = finish-snoc (length held') held p (rw (length-snoc held p) s.4) opened kept in
        (
          record last {
            sent =
                transfer_request id (length held + 1) (is_number (length held + 1) announced) none
                ∷ last.sent;
          },
          rw (collect-more (suc fuel) held p [] s) (rw (collect-finish fuel (length held') held')),
          ap
              (λ l.
                transfer_request id (length held + 1) (is_number (length held + 1) announced) none
                ∷ l)
              done.0,
          done.1,
        )
    collect-Serves (q ∷ rest) (suc (suc fuel)) held p s opened kept m =
        let held' = held ++ p ∷ [] in
        let ih =
          collect-Serves rest (suc fuel) held' q (rw (length-snoc held p) s.4)
            (rw (append_assoc held (p ∷ []) (q ∷ rest)) opened) kept (omega arith) in
        (
          record ih.0 {
            sent =
                transfer_request id (length held + 1) (is_number (length held + 1) announced) none
                ∷ ih.0.sent;
          },
          rw (collect-more (suc fuel) held p (q ∷ rest) s) (rw ih.1 refl),
          ap
              (λ l.
                transfer_request id (length held + 1) (is_number (length held + 1) announced) none
                ∷ l)
              (ih.2 ∙ ap (λ n. fetches stored id announced n (q ∷ rest)) (length-snoc held p)),
          ih.3,
        )

feed_response-first :
    (r : BankResponse) (c : ℕ) (id key p : Text) (rest : List Text)
    → IsOk r
    → r.transaction_id ≡ some (c ∷ id)
    → r.transaction_key_encrypted ≡ some key
    → r.order_data ≡ some p
    → r.last_segment ≡ some (is_nil rest)
    → feed_response download_direction r fresh
      ≡ (ok r, under_way (c ∷ id) key r.num_segments (phase_after rest) (p ∷ []))
unfolding feed_response feed_step advance
feed_response-first r c id key p rest h t k o l =
    rw (IsOk-needs_recovery h, IsOk-raise_for_status h, IsOk-ends_transaction h, t, o, l)
      (ground arith)

-- If the bank's answers serve these pieces one after another, the first with a TransactionID and the
-- transaction key, and the pieces joined open to a payload, then a download on enough fuel asks
-- for the pieces from the second on in order. If the payload is then unpacked and its documents are
-- stored, the positive receipt is sent last, it is taken, and the run ends with that payload; if this
-- fails, no receipt is sent, and the run ends with what was raised.
pub run_download-Serves :
    (open_order_data : Text → Text → Result Text) (storage : Storage) (payload : Text)
    (stored : Option StoreFault) (answer : ℕ → BankResponse) (c : ℕ) (id key p : Text)
    (rest : List Text) (fuel : ℕ)
    → Serves answer 0 (p ∷ rest)
    → (answer 0).transaction_id ≡ some (c ∷ id)
    → (answer 0).transaction_key_encrypted ≡ some key
    → open_order_data (concat (p ∷ rest)) key ≡ ok payload
    → store storage payload ≡ stored
    → length rest + 1 < fuel
    → (run : Run) × (run_download open_order_data storage answer fuel fresh ≡ some run)
      × (run.sent ≡ fetches stored (c ∷ id) (answer 0).num_segments 1 rest)
      × (run.end ≡ ended_with payload stored)
unfolding run_download
run_download-Serves open_order_data storage payload stored answer c id key p rest zero s t k opened
      kept m =
    elim m [ ]
run_download-Serves open_order_data storage payload stored answer c id key p [] (suc fuel) s t k
      opened kept m =
    let a = (answer 0).num_segments in
    let done =
      finish-acknowledged answer (c ∷ id) key a open_order_data storage payload stored 1 p [] s.4
        opened kept in
    (
      finish open_order_data storage answer 1 (under_way (c ∷ id) key a Phase.receipt (p ∷ [])),
      rw (feed_response-first (answer 0) c id key p [] s.0 t k s.1 s.2) (
          collect-finish answer (c ∷ id) key a open_order_data storage payload stored fuel 1
            (p ∷ [])),
      unfold fetches in done.0,
      done.1,
    )
run_download-Serves open_order_data storage payload stored answer c id key p (q ∷ rest) (suc fuel) s
      t k opened kept m =
    rw (feed_response-first (answer 0) c id key p (q ∷ rest) s.0 t k s.1 s.2) (
      collect-Serves answer (c ∷ id) key (answer 0).num_segments open_order_data storage payload
        stored rest (suc fuel) (p ∷ []) q s.4 opened kept (omega arith))
