-- ===== src/Examples/EbicsEngine.antt =====
-- The EBICS engine at concrete inputs: painfree/ebics3.

use mathlib.Core.List.{Memᴰ}
use painfree_ebics_middlewar.Prelude.{
  ℕ, zero, suc, ◌+◌, ◌<◌, Text, text, text_eq, strip, lstrip, is_space, pos, true, false, ◌≡◌, ◌↔◌,
  refl, ◌⊎◌, inr, List, [], ◌∷◌, ◌++◌, length, concat, All, Option, none, some, arith,
}
use painfree_ebics_middlewar.Ebics.Errors.{ok}
use painfree_ebics_middlewar.Ebics.ReturnCodes.{
  ReturnCode, is_ok, is_benign, needs_recovery, ends_transaction, Family, Disposition, table,
  find_code, named, lookup, raises, is_terminal,
}
use painfree_ebics_middlewar.Ebics.ReturnCodes.Laws.{lookup-table}
use painfree_ebics_middlewar.Ebics.Responses.{
  BankResponse, classify, status_ok, raise_for_status, status_needs_recovery,
  status_ends_transaction,
}
use painfree_ebics_middlewar.Ebics.Responses.Accepted.{IsOk, IsOk-needs_recovery}
use painfree_ebics_middlewar.Ebics.Responses.Refusals.{IsMasked, raise_for_status-silent}
use painfree_ebics_middlewar.Ebics.Segments.{split_segments}
use painfree_ebics_middlewar.Ebics.Segments.Laws.{AreFull, concat-split_segments}
use painfree_ebics_middlewar.Ebics.Transaction.Feed.{
  Phase, Request, transfer_request, feed_response, feed_step, require_transaction, resume_at,
}
use painfree_ebics_middlewar.Ebics.Transaction.Upload.{
  Upload, Run, prepare, posted, drive, run_upload, submitted, upload_direction, next_request,
  advance, end_of,
}
use painfree_ebics_middlewar.Ebics.Transaction.Upload.Sending.{
  fresh, transfers, run_upload-sends, drive-resumes,
}
use painfree_ebics_middlewar.Ebics.Transaction.Upload.Delivery.{
  Carries, SendsAll, drive-Carries, carried, prepare-run_upload,
}
use painfree_ebics_middlewar.Ebics.Transaction.Upload.Masking.{feed_response-masked}
use painfree_ebics_middlewar.Ebics.Transaction.Download
use painfree_ebics_middlewar.Ebics.Transaction.Download.{Download, download_direction, run_download}
use painfree_ebics_middlewar.Ebics.Transaction.Download.Unpack.{
  unpack, Storage, store, document_unreadable,
}
use painfree_ebics_middlewar.Ebics.Transaction.Download.Receiving.{
  IsAligned, feed_response-IsAligned, feed_response-skips, next_request-feed_response,
}
use painfree_ebics_middlewar.Ebics.Transaction.Download.Delivery.{fetches, run_download-Serves}

concat-split_segments_example :
    (segments : List Text) × (split_segments (text "QUJDREVG") 4 ≡ ok segments)
    × (concat segments ≡ text "QUJDREVG")
    × AreFull 4 segments
    × (0 < length segments)
concat-split_segments_example = concat-split_segments (text "QUJDREVG") 4 (omega arith) refl

-- An answer that takes a step; it names the transaction and says 000000.
abbrev taken : BankResponse
taken = record {
  header_return_code = some (text "000000");
  body_return_code = some (text "000000");
  report_text = none;
  transaction_id = some (text "A1");
  transaction_phase = none;
  num_segments = none;
  segment_number = none;
  last_segment = none;
  order_id = some (text "N00A");
  order_data = none;
  transaction_key_encrypted = none;
}

taken-IsOk : IsOk taken
taken-IsOk = record { header = refl; body = inr refl }

run_upload-sends_example :
    (run : Run) × (run_upload (λ _. taken) 3 (fresh (text "AA" ∷ text "BB" ∷ [])) ≡ some run)
    × (run.sent ≡ transfers (text "A1") 1 (text "AA" ∷ text "BB" ∷ []))
    × (run.end ≡ submitted)
run_upload-sends_example =
    run_upload-sends (λ _. taken) (text "AA") (text "BB" ∷ []) b'A' (text "1") 3 (λ _. taken-IsOk)
      refl (omega arith)

-- The content as it is, for an encryption.
prepare-run_upload_example :
    (u : Upload) × (run : Run) × (prepare (λ s. s) (text "QUJDREVG") 4 ≡ ok u)
    × (run_upload (λ _. taken) (length u.segments + 1) u ≡ some run)
    × (run.end ≡ submitted)
    × (concat (carried run.sent) ≡ text "QUJDREVG")
prepare-run_upload_example =
    prepare-run_upload (λ s. s) (text "QUJDREVG") 4 (λ _. taken) b'A' (text "1") (omega arith) refl
      (λ _. taken-IsOk) refl

-- The bank's offer to go on behind segment 1.
abbrev sync : ℕ → BankResponse
sync n = record taken { header_return_code = some (text "061101"); segment_number = some (pos n) }

abbrev three : List Text
three = text "AA" ∷ text "BB" ∷ text "CC" ∷ []

abbrev half_sent : Upload
half_sent = record {
  shared = record { transaction_id = some (text "A1"); phase = Phase.transfer; cursor = 2 };
  segments = three;
  order_id = none;
}

drive-resumes_example :
    (run : Run) × (drive (λ _. taken) 3 5 (feed_response upload_direction (sync 1) half_sent).1
      ≡ some run)
    × (run.sent ≡ transfers (text "A1") 2 (text "BB" ∷ text "CC" ∷ []))
    × (run.end ≡ submitted)
drive-resumes_example =
    drive-resumes (λ _. taken) (sync 1) half_sent 1 3 5 (text "A1") (text "BB") (text "CC" ∷ [])
      (record { header = refl }) refl refl refl (λ _. taken-IsOk) (omega arith)

abbrev one_left : Run
one_left = record {
  sent = transfer_request (text "A1") 3 true (some (text "CC")) ∷ [];
  end = submitted;
  final = record half_sent {
    shared = record half_sent.shared { phase = Phase.done; cursor = 3 };
    order_id = some (text "N00A");
  };
}

one_left_runs : drive (λ _. taken) 2 0 half_sent ≡ some one_left
unfolding drive next_request advance end_of feed_response feed_step require_transaction classify
    lookup find_code table named text_eq strip lstrip is_space is_ok is_benign needs_recovery
    ends_transaction raises status_needs_recovery status_ends_transaction raise_for_status
one_left_runs = refl

-- A bank that asks for the third segment again for ever: the loop does not end.
endless : drive (λ _. sync 2) 5 0 half_sent ≡ none
unfolding drive next_request feed_response feed_step require_transaction classify lookup find_code
    table named text_eq strip lstrip is_space is_ok is_benign needs_recovery ends_transaction raises
    status_needs_recovery status_ends_transaction raise_for_status resume_at
endless = refl

drive-Carries_example :
    All (Carries three) (posted (λ _. sync 2) 5 0 half_sent)
    × SendsAll (drive (λ _. sync 2) 5 0 half_sent) (posted (λ _. sync 2) 5 0 half_sent)
drive-Carries_example = drive-Carries (λ _. sync 2) 5 0 half_sent

-- The last answer: a notice over a refused signature.
abbrev masked : BankResponse
masked = record taken {
  header_return_code = some (text "031001");
  body_return_code = some (text "091301");
}

abbrev signature_refused : ReturnCode
signature_refused = record {
  code = text "091301";
  name = some (text "EBICS_SIGNATURE_VERIFICATION_FAILED");
  family = Family.business;
  disposition = Disposition.terminal;
}

masked_body : lookup (some (text "091301")) ≡ some signature_refused
unfolding lookup named find_code table text_eq strip lstrip is_space
masked_body = refl

feed_response-masked_example :
    (status_ok (classify masked) ≡ false)
    × let o = feed_response upload_direction masked half_sent in
      (o.0 ≡ ok masked) × (o.1.phase ≡ Phase.done)
feed_response-masked_example =
    feed_response-masked masked half_sent signature_refused refl masked_body
      (unfold is_terminal in refl) refl refl

abbrev half_received : Download
half_received = record {
  shared = record { transaction_id = some (text "D7"); phase = Phase.transfer; cursor = 1 };
  has_encryption_key = true;
  num_segments = some (pos 3);
  segments = text "AA" ∷ [];
  transaction_key_encrypted = some (text "K");
  acknowledged = true;
}

feed_response-IsAligned_example : IsAligned (feed_response download_direction taken half_received).1
feed_response-IsAligned_example =
    feed_response-IsAligned taken half_received refl (λ n s e. cc (IsOk-needs_recovery taken-IsOk))

feed_response-skips_example :
    let d = (feed_response download_direction (sync 2) half_received).1 in
    (Download.next_request d ≡ ok (some (transfer_request (text "D7") 3 true none)))
    × (d.segments ≡ text "AA" ∷ [])
    × (length d.segments < d.cursor)
feed_response-skips_example =
    feed_response-skips (sync 2) half_received 2 (text "D7") refl (record { header = refl }) refl
      refl (omega arith)

next_request-feed_response_example :
    (o : Option Request) × (Download.next_request
        (feed_response download_direction taken half_received).1
      ≡ ok o)
next_request-feed_response_example =
    next_request-feed_response taken half_received (λ _. refl) (λ e. cc)

-- A bank that serves two pieces and takes the receipt.
abbrev serving : ℕ → BankResponse
serving zero = record taken {
  order_data = some (text "AA");
  last_segment = some false;
  segment_number = some (pos 1);
  num_segments = some (pos 2);
  transaction_key_encrypted = some (text "K");
}
serving (suc zero) = record taken {
  order_data = some (text "BB");
  last_segment = some true;
  segment_number = some (pos 2);
}
serving (suc (suc k)) = record taken { header_return_code = some (text "011000") }

-- A payload that is no archive is one document; a store that takes it, and one that does not.
abbrev storage : Option Text → Storage
storage result = record { infolist = λ t. none; ingest = λ documents. result }

stored : store (storage none) (text "AABB") ≡ none
unfolding store unpack text_eq
stored = refl

-- What begins like an archive and is none is refused.
broken : store (storage none) (text "PK" ++ (3 ∷ 4 ∷ [])) ≡ some document_unreadable
unfolding store unpack text_eq
broken = refl

run_download-Serves_example :
    (run : Download.Run) × (run_download (λ s key. ok s) (storage none) serving 3 Download.fresh
      ≡ some run)
    × (run.sent ≡ fetches none (text "A1") (some (pos 2)) 1 (text "BB" ∷ []))
    × (run.end ≡ Download.complete (text "AABB") true)
run_download-Serves_example =
    run_download-Serves (λ s key. ok s) (storage none) (text "AABB") none serving b'A' (text "1")
      (text "K") (text "AA") (text "BB" ∷ []) 3
      (
        record { header = refl; body = inr refl },
        refl,
        refl,
        refl,
        (
          record { header = refl; body = inr refl },
          refl,
          refl,
          refl,
          record { header = refl; body = inr refl },
        ),
      )
      refl refl refl stored (omega arith)

raise_for_status-silent_example :
    (raise_for_status (classify taken) ≡ ok tt)
    ↔ ((status_ok (classify taken) ≡ true) ⊎ IsMasked (classify taken))
raise_for_status-silent_example = raise_for_status-silent (classify taken)

lookup-table_example :
    lookup (some (text " 000000 "))
    ≡ some (named "000000" "EBICS_OK" Family.success Disposition.success)
unfolding table is_space
lookup-table_example =
    lookup-table (text " ") (text " ")
      (named "000000" "EBICS_OK" Family.success Disposition.success) (Memᴰ.head refl) refl refl
