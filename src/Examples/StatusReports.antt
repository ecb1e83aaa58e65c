-- ===== src/Examples/StatusReports.antt =====
-- Status reports at concrete inputs: painfree/reconcile.py.
use painfree_ebics_middlewar.Prelude.{
  ℕ, Text, text, text_eq, is_space, if◌then◌else◌, Option, none, some, List, [], ◌∷◌, update_where,
  select_where, ◌≡◌, refl,
}
use painfree_ebics_middlewar.Orders.Rows.{OrderState, same_state, Store, find_order}
use painfree_ebics_middlewar.Reconcile.Codes.{status_code, takes, is_refusal}
use painfree_ebics_middlewar.Reconcile.Reports.{
  Reason, TransactionStatus, PaymentStatus, StatusReport, original_message_id,
}
use painfree_ebics_middlewar.Reconcile.Decide.{
  short_reason, tally, agreed, unanimous, text_lt, add_sorted, unknown_statuses, reason, decisive,
  resolve,
}
use painfree_ebics_middlewar.Reconcile.Headline.{Reported, resolve-Reported}
use painfree_ebics_middlewar.Reconcile.Apply.{
  found, order_for, revocable, reconciles_from, movable_from, reported_values, reported_at, move,
  reconcile,
}
use painfree_ebics_middlewar.Reconcile.Reading.{
  set_default, reading, find_block, for_transfer, unsent,
}
use painfree_ebics_middlewar.Reconcile.Reading.Said.{Said, for_transfer-Said}
use painfree_ebics_middlewar.Reconcile.Verdicts.{Standing, standings, Arrival, receive, hear_all}
use painfree_ebics_middlewar.Reconcile.Verdicts.Refines.{receive-hear_all}
use painfree_ebics_middlewar.Reconcile.Verdicts.Again.{reconcile_again}
use painfree_ebics_middlewar.Examples.OrderQueue.{queued, first_attempt}

-- Two dates that reports carry, and what a reader makes of them.
abbrev dates : Text → Option ℕ
dates t = if text_eq t (text "1") then some 1 else if text_eq t (text "2") then some 2 else none

abbrev transaction : Text → Text → TransactionStatus
transaction reference status = record {
  instruction_id = none;
  end_to_end_id = some reference;
  status = some status;
  acceptance_datetime = none;
  reasons = [];
}

abbrev account_wrong : Reason
account_wrong = record {
  code = some (text "AC01");
  proprietary = none;
  additional_information = text "no such" ∷ text " account" ∷ [];
}

abbrev block : Option Text → List TransactionStatus → PaymentStatus
block status transactions = record {
  payment_information_id = some (text "P1");
  status = status;
  transactions = transactions;
  reasons = account_wrong ∷ [];
}

abbrev report : Option Text → Option Text → List PaymentStatus → StatusReport
report created_at status payments = record {
  created_at = created_at;
  message_identification = some (text "M1");
  status = status;
  reasons = [];
  payments = payments;
}

-- The group says that the file was checked, and then that it is refused.
abbrev checks : StatusReport
checks = report (some (text "1")) (some (text "ACCP")) []

abbrev turned_down : StatusReport
turned_down = report (some (text "2")) (some (text "RJCT")) (block none [] ∷ [])

-- No group status, one transaction taken and one refused, and a block that is refused.
abbrev divided : StatusReport
divided = report none none (
    block (some (text "RJCT"))
      (transaction (text "E1") (text "ACSP") ∷ transaction (text "E2") (text "RJCT") ∷ [])
    ∷ [])

-- The transactions of a report disagree, and the order is rejected for the level above them.
divided_rejected : (resolve divided).state ≡ some OrderState.rejected
unfolding resolve decisive unanimous agreed status_code text_eq
divided_rejected = refl

turned_down_outcome : resolve turned_down ≡ record {
  state = some OrderState.rejected;
  status = some (text "RJCT");
  reason_code = some (text "AC01");
  reason_text = some (text "no such; account");
  accepted = 0;
  rejected = 0;
  pending = 0;
  unknown = [];
}
unfolding resolve decisive unanimous agreed status_code text_eq reason short_reason is_space tally
    unknown_statuses
turned_down_outcome = refl

divided_tally :
    tally (some (text "ACSP") ∷ none ∷ some (text "RJCT") ∷ some (text "PDNG") ∷ [])
    ≡ record { accepted = 1; rejected = 1; pending = 2 }
unfolding tally status_code text_eq
divided_tally = refl

unknown_sorted :
    unknown_statuses
      (some (text "XB") ∷ some (text "RJCT") ∷ none ∷ some (text "XA") ∷ some (text "XB") ∷ [])
    ≡ text "XA" ∷ text "XB" ∷ []
unfolding unknown_statuses add_sorted text_lt status_code text_eq
unknown_sorted = refl

abbrev sent : Store
sent = record {
  orders = record queued { state = OrderState.submitted } ∷ [];
  attempts = first_attempt ∷ [];
  audit = [];
}

answered_order : order_for (text "bank") checks sent ≡ found (text "ord_1")
unfolding order_for original_message_id select_where text_eq
answered_order = refl

resolve-Reported_example :
    ((resolve divided).state ≡ some OrderState.rejected → Reported is_refusal divided)
    × ((resolve divided).state ≡ some OrderState.acknowledged → Reported takes divided)
resolve-Reported_example = resolve-Reported divided

abbrev arrival : StatusReport → ℕ → Arrival
arrival p now = record {
  connection_id = text "bank";
  order_id = some (text "ord_1");
  report = p;
  now = now;
}

receive-hear_all_example :
    standings (receive dates (arrival checks 5 ∷ arrival turned_down 6 ∷ []) sent).orders
    ≡ hear_all dates (arrival checks 5 ∷ arrival turned_down 6 ∷ []) (standings sent.orders)
receive-hear_all_example =
    receive-hear_all dates (arrival checks 5 ∷ arrival turned_down 6 ∷ []) sent (tt, tt)

-- The refusal that was written later overturns the check.
overturned_check :
    standings (receive dates (arrival checks 5 ∷ arrival turned_down 6 ∷ []) sent).orders
    ≡ (text "ord_1", Standing.closed OrderState.rejected) ∷ []
unfolding reconcile resolve decisive unanimous agreed status_code text_eq reason short_reason
    is_space tally unknown_statuses move revocable reported_at movable_from reconciles_from
    reported_values update_where select_where find_order same_state
overturned_check = refl

-- Another report on the order, between the two.
abbrev in_between : List Arrival
in_between =
    record {
      connection_id = text "bank";
      order_id = some (text "ord_1");
      report = divided;
      now = 7;
    }
    ∷ []

reconcile_again_example :
    (reconcile dates (text "bank") (some (text "ord_1")) checks 9 (
      receive dates in_between
        (reconcile dates (text "bank") (some (text "ord_1")) checks 5 sent).1)).1.orders
    ≡ (receive dates in_between
        (reconcile dates (text "bank") (some (text "ord_1")) checks 5 sent).1).orders
reconcile_again_example =
    reconcile_again dates (text "bank") (text "ord_1") checks 5 9 in_between sent (tt, tt)

for_transfer-Said_example :
    Said divided
      (some (text "E2"))
      none
      (some (text "P1"))
      (for_transfer (reading divided) (some (text "E2")) none (some (text "P1")))
for_transfer-Said_example = for_transfer-Said divided (some (text "E2")) none (some (text "P1"))

-- Two transfers without an end-to-end id share the reference that stands for it, and both are shown the
-- answer of the first.
abbrev unprovided : StatusReport
unprovided =
    let missing = text "NOTPROVIDED" in
    report none none
      (block none (transaction missing (text "ACSP") ∷ transaction missing (text "RJCT") ∷ []) ∷ [])

siblings :
    (for_transfer (reading unprovided) (some (text "NOTPROVIDED")) none (some (text "P1"))).status
    ≡ some (text "ACSP")
unfolding for_transfer reading set_default find_block text_eq
siblings = refl

-- A transfer that the report does not name has the status of its block, and the one that is named has its
-- own; a reference that was not sent stands out.
divided_read :
    ((for_transfer (reading divided) (some (text "E1")) none none).status ≡ some (text "ACSP"))
    × ((for_transfer (reading divided) (some (text "E9")) none (some (text "P1"))).status
        ≡ some (text "RJCT"))
    × (unsent (reading divided) (some (text "E1") ∷ none ∷ []) ≡ text "E2" ∷ [])
unfolding for_transfer reading set_default find_block unsent text_eq
divided_read = (refl, refl, refl)
