-- ===== src/Reconcile/Decide.antt =====
-- What one report says: `resolve` of painfree/reconcile.py and its helpers.
use painfree_ebics_middlewar.Prelude.{
  ℕ, ◌+◌, ◌-◌, ◌==◌, Text, text, text_eq, is_empty, Bool, true, false, ◌&&◌, ◌||◌, leb, ltb,
  is_some, Option, none, some, List, [], ◌∷◌, ◌++◌, map, all, length, take, if◌then◌else◌,
}
use painfree_ebics_middlewar.Orders.Rows.{OrderState}
use painfree_ebics_middlewar.Orders.Queue.{collapse}
use painfree_ebics_middlewar.Reconcile.Codes.{
  Disposition, StatusCode, status_code, status_of, outcome_of, takes, is_refusal,
}
use painfree_ebics_middlewar.Reconcile.Reports.{
  Reason, TransactionStatus, PaymentStatus, StatusReport, transactions_of, given, or_given,
}

-- `StatusOutcome`.
pub record StatusOutcome : Type 0 where
  pub state : Option OrderState
  pub status : Option Text
  pub reason_code : Option Text
  pub reason_text : Option Text
  pub accepted : ℕ
  pub rejected : ℕ
  pub pending : ℕ
  pub unknown : List Text

-- `MAX_REASON_LENGTH`.
abbrev max_reason_length : ℕ
max_reason_length = 1024

-- `_short`.
unfoldable pub short_reason : Text → Text
unfolding collapse
short_reason reason =
    let r = collapse false false reason in
    if leb (length r) max_reason_length then r else take (max_reason_length - 1) r ++ (8230 ∷ [])

-- The counts of `_tally`: taken, refused, and not decided.
pub record Tally : Type 0 where
  pub accepted : ℕ
  pub rejected : ℕ
  pub pending : ℕ

abbrev pub count : Option StatusCode → Tally → Tally
count none t = record t { pending = t.pending + 1 }
count (some c) t =
    if takes c.disposition
    then record t { accepted = t.accepted + 1 }
    else if is_refusal c.disposition
    then record t { rejected = t.rejected + 1 }
    else record t { pending = t.pending + 1 }

unfoldable pub tally : List (Option Text) → Tally
tally [] = record { accepted = 0; rejected = 0; pending = 0 }
tally (s ∷ statuses) = count (status_of s) (tally statuses)

-- A status of a level that is known and whose disposition passes a test.
abbrev pub passes : (Disposition → Bool) → Option StatusCode → Bool
passes test none = false
passes test (some c) = test c.disposition

abbrev pub head_code : List (Option Text) → Option StatusCode
head_code [] = none
head_code (s ∷ statuses) = status_of s

-- One round of the loop of `_unanimous`.
unfoldable pub agreed : List (Option Text) → Option StatusCode
agreed statuses =
    if all (λ s. is_some (status_of s)) statuses
      && (all (λ s. passes takes (status_of s)) statuses
          || all (λ s. passes is_refusal (status_of s)) statuses)
    then head_code statuses
    else none

abbrev pub or_code : Option StatusCode → Option StatusCode → Option StatusCode
or_code none d = d
or_code (some c) d = some c

-- `_unanimous`, given the statuses of both levels.
unfoldable pub unanimous : (payments transactions : List (Option Text)) → Option StatusCode
unanimous payments transactions = or_code (agreed transactions) (agreed payments)

-- `<` and `==` of Python's `str`.
unfoldable pub text_lt : Text → Text → Bool
text_lt [] [] = false
text_lt [] (d ∷ t) = true
text_lt (c ∷ s) [] = false
text_lt (c ∷ s) (d ∷ t) = ltb c d || (c == d && text_lt s t)

-- Into a sorted list without repetitions.
unfoldable pub add_sorted : Text → List Text → List Text
unfolding text_lt
add_sorted t [] = t ∷ []
add_sorted t (u ∷ us) =
    let rest = add_sorted t us in
    if text_lt t u then t ∷ u ∷ us else if text_eq t u then u ∷ us else u ∷ rest

-- `_unknown`.
unfoldable pub unknown_statuses : List (Option Text) → List Text
unfolding add_sorted
unknown_statuses [] = []
unknown_statuses (none ∷ statuses) = unknown_statuses statuses
unknown_statuses (some t ∷ statuses) =
    let rest = unknown_statuses statuses in
    if is_empty t || is_some (status_code t) then rest else add_sorted t rest

-- `"; ".join`.
abbrev join_notes : List Text → Text
join_notes [] = []
join_notes (t ∷ []) = t
join_notes (t ∷ u ∷ us) = t ++ text "; " ++ join_notes (u ∷ us)

-- The code of a reason, and its text.
abbrev reason_code_of : Reason → Option Text
reason_code_of r = or_given r.code r.proprietary

-- `code or text`.
abbrev speaks : Reason → Bool
speaks r =
    is_some (given (reason_code_of r))
    || is_some (given (some (join_notes r.additional_information)))

abbrev first_reason : List Reason → Option Text × Option Text
first_reason [] = (none, none)
first_reason (r ∷ rs) =
    if speaks r
    then (reason_code_of r, given (some (short_reason (join_notes r.additional_information))))
    else first_reason rs

abbrev reasons_of_payments : List PaymentStatus → List Reason
reasons_of_payments [] = []
reasons_of_payments (b ∷ bs) = b.reasons ++ reasons_of_payments bs

abbrev reasons_of_transactions : List TransactionStatus → List Reason
reasons_of_transactions [] = []
reasons_of_transactions (t ∷ ts) = t.reasons ++ reasons_of_transactions ts

-- `_reason`: the first reason that has a code or a text, from the top.
unfoldable pub reason : StatusReport → Option Text × Option Text
unfolding short_reason
reason p = first_reason (
    p.reasons
    ++ reasons_of_payments p.payments
    ++ reasons_of_transactions (transactions_of p.payments))

abbrev pub transaction_statuses : StatusReport → List (Option Text)
transaction_statuses p = map (λ t. t.status) (transactions_of p.payments)

abbrev pub payment_statuses : StatusReport → List (Option Text)
payment_statuses p = map (λ b. b.status) p.payments

abbrev pub code_text : Option StatusCode → Option Text
code_text none = none
code_text (some c) = some c.code

abbrev pub outcome_state : Option StatusCode → Option OrderState
outcome_state none = none
outcome_state (some c) = outcome_of c.disposition

-- `head` and `group`: the status of the group, and without one what the levels below agree on.
abbrev pub headline : Option Text → Option StatusCode → Option StatusCode × Option Text
headline (some group) below = (status_code group, some group)
headline none below = (below, code_text below)

unfoldable pub decisive : StatusReport → Option StatusCode × Option Text
decisive p = headline p.status (unanimous (payment_statuses p) (transaction_statuses p))

-- `resolve`.
unfoldable pub resolve : StatusReport → StatusOutcome
resolve p =
    let counts = tally (transaction_statuses p) in
    record {
      state = outcome_state (decisive p).0;
      status = (decisive p).1;
      reason_code = (reason p).0;
      reason_text = (reason p).1;
      accepted = counts.accepted;
      rejected = counts.rejected;
      pending = counts.pending;
      unknown = unknown_statuses (p.status ∷ payment_statuses p ++ transaction_statuses p);
    }

-- `StatusOutcome.decides`.
abbrev pub decides : StatusOutcome → Bool
decides outcome = is_some outcome.state
