-- ===== src/Examples/OrderSubmission.antt =====
-- The insert of orders, and an upload that leaves their messages, at concrete inputs: painfree/orders.py
-- and painfree/worker.py.
use mathlib.Core.List.{Memᴰ}
use painfree_ebics_middlewar.Prelude.{
  text, text_eq, true, false, ◌≡◌, refl, [], ◌∷◌, select_where, if◌then◌else◌, none, inr,
}
use painfree_ebics_middlewar.Orders.Rows.{same_attempt_state, OrderRow, AttemptRow}
use painfree_ebics_middlewar.Orders.Submission.{
  submission, key_reused, insert_attempts, next_seq, insert,
}
use painfree_ebics_middlewar.Orders.History.Accepted.{IsBuilt, insert-Repeated}
use painfree_ebics_middlewar.Orders.History.Inserted.{HasGoodTables, insert-HasGoodTables}
use painfree_ebics_middlewar.Ebics.Errors.{Refusal}
use painfree_ebics_middlewar.Schemes.Profiles.{refuses_instant, contains_code}
use painfree_ebics_middlewar.Orders.Queue.{seconds}
use painfree_ebics_middlewar.Orders.Worker.{bank_refused, deliver}
use painfree_ebics_middlewar.Orders.History.SameMessage.{HasSameMessages, deliver-HasSameMessages}
use painfree_ebics_middlewar.Examples.OrderQueue.{
  profiles, taken, refusal, queued, first_attempt, database, database-WellFormed, text_apart,
}

-- Another payment of the same connection, with an attempt.
abbrev later : OrderRow
later = record queued {
  order_id = text "ord_5";
  idempotency_key = text "key-0005";
  msg_id = text "M5";
}

abbrev later_attempt : AttemptRow
later_attempt = record first_attempt {
  attempt_id = text "att_5";
  order_id = text "ord_5";
  msg_id = text "M5";
}

later-IsBuilt : IsBuilt later (later_attempt ∷ [])
unfolding select_where same_attempt_state text_eq
later-IsBuilt = record {
  is_accepted = refl;
  no_worker = refl;
  no_claim = refl;
  of_order = (refl, tt);
  one_live = (later_attempt, refl, (refl, refl, refl, refl));
}

-- It is inserted behind the order with number 7.
later_inserted :
    (insert later (later_attempt ∷ []) database).0 ≡ submission (record later { seq = 8 }) false
unfolding insert insert_attempts next_seq text_eq
later_inserted = refl

insert-HasGoodTables_example : HasGoodTables (insert later (later_attempt ∷ []) database).1
unfolding text_eq
insert-HasGoodTables_example =
    insert-HasGoodTables later (later_attempt ∷ []) database later-IsBuilt
      (
        text_apart (text "ord_1") (text "ord_5") refl,
        (text_apart (text "ord_1") (text "ord_5") refl, tt),
      )
      (database-WellFormed, (tt, tt))

-- The key of the first order, for a payment with another fingerprint.
abbrev changed : OrderRow
changed = record queued {
  order_id = text "ord_6";
  msg_id = text "M6";
  request_fingerprint = text "g";
}

insert-Repeated_example :
    ((insert changed [] database).0 ≡ (
      if text_eq (text "f") (text "g")
      then submission queued true
      else key_reused (text "ord_1") queued.state))
    × ((insert changed [] database).1.orders ≡ database.orders)
    × ((insert changed [] database).1.attempts ≡ database.attempts)
insert-Repeated_example =
    insert-Repeated queued changed [] database (tt, tt) (Memᴰ.head refl) refl refl

-- A final refusal with a code that says nothing of instant.
abbrev other_refusal : Refusal
other_refusal = record refusal { return_code = text "090004" }

deliver-HasSameMessages_example :
    HasSameMessages database
      (deliver (λ d. []) profiles (seconds 20) taken (bank_refused other_refusal none) database).1
unfolding refuses_instant contains_code text_eq
deliver-HasSameMessages_example =
    deliver-HasSameMessages (λ d. []) profiles (seconds 20) taken (bank_refused other_refusal none)
      database (inr refl)
