-- ===== src/Examples/DownloadRuns.antt =====
-- Tests of the download schedules, and their theorem at a concrete history.
use mathlib.Core.List.{Memᴰ}
use painfree_ebics_middlewar.Prelude.{
  ℕ, ◌*◌, ◌+◌, text, text_eq, true, none, some, [], ◌∷◌, All, map, select_where, update_where, ◌≡◌,
  refl, subst, sym,
}
use painfree_ebics_middlewar.Orders.Queue.{seconds}
use painfree_ebics_middlewar.Schedules.Rows.{RunState, is_finished, ScheduleRow, Ledger}
use painfree_ebics_middlewar.Schedules.Claim.{
  window, ClaimedSchedule, is_claimable, most_overdue, taken_values, open_run, claimed_schedule,
  claim_schedule,
}
use painfree_ebics_middlewar.Schedules.Finish.{RunEnd, finished}
use painfree_ebics_middlewar.Schedules.Manage.{not_claimable, refetch}
use painfree_ebics_middlewar.Schedules.Steps.{
  System, with_claim, without_claim, takes, ends, Steps, here, then,
}
use painfree_ebics_middlewar.Schedules.Coverage.{IsCovered}
use painfree_ebics_middlewar.Schedules.Coverage.History.{IsFresh, steps-IsCovered}

-- Eight o'clock of a day.
abbrev eight : (day : ℕ) → ℕ
eight day = seconds (day * 86400 + 28800)

-- The bank answered for everything up to day 100; two days were missed since.
abbrev statements : ScheduleRow
statements = record {
  seq = 1;
  schedule_id = text "dsc_1";
  connection_id = text "bank";
  cadence_seconds = 86400;
  cron = none;
  enabled = true;
  window_days = some 7;
  fetched_through = some 100;
  due_at = eight 101;
  worker_id = none;
  claimed_at = none;
  last_run_at = none;
  last_return_code = none;
  last_error = none;
  run_requested_by = none;
  updated_at = 0;
}

abbrev idle : System
idle = record { ledger = record { schedules = statements ∷ []; runs = [] }; claims = [] }

abbrev ended : RunState → RunEnd
ended state = record {
  state = state;
  return_code = none;
  report_text = none;
  transaction_id = none;
  bank_order_id = none;
  acknowledged = true;
  segments = 1;
  byte_count = 10;
  documents = 1;
  statements = 1;
  duplicates = 0;
  error = none;
}

abbrev claim_of : ClaimedSchedule
claim_of =
    claimed_schedule (text "w") (text "run_1") (eight 103)
      (taken_values (text "w") (eight 103) statements)

abbrev under_way : System
under_way = record {
  ledger = (claim_schedule (text "w") (text "run_1") (eight 103) (seconds 900) idle.ledger).1;
  claims =
      with_claim (claim_schedule (text "w") (text "run_1") (eight 103) (seconds 900) idle.ledger).0
        [];
}

abbrev answered : Ledger
answered = finished claim_of (ended RunState.complete) (eight 103) 0 under_way.ledger

under_way-claim_schedule :
    (claim_schedule (text "w") (text "run_1") (eight 103) (seconds 900) idle.ledger).0
    ≡ some claim_of
unfolding claim_schedule most_overdue is_claimable select_where
under_way-claim_schedule = refl

-- The run asks for the day after the mark up to today.
asked : window statements 103 ≡ (some 101, some 103)
unfolding window
asked = refl

history :
    Steps idle
      (record { ledger = answered; claims = without_claim claim_of.run_id under_way.claims })
history =
    then (then (here idle) (takes (text "w") (text "run_1") (eight 103) (seconds 900) idle refl)) (
      ends claim_of (ended RunState.complete) (eight 103) 0 under_way (
        subst (λ c. Memᴰ claim_of (with_claim c [])) (sym under_way-claim_schedule)
          (Memᴰ.head refl)))

idle-IsFresh : IsFresh (text "dsc_1") 100 idle
idle-IsFresh = (refl, ((λ own. (7, refl, refl)), tt))

steps-IsCovered_example : All (IsCovered (text "dsc_1") 100 answered.runs) answered.schedules
steps-IsCovered_example = steps-IsCovered (text "dsc_1") 100 history idle-IsFresh

-- Days that were never answered are behind the mark after a refetch that starts in front of them.
skipped :
    map
      (λ o. o.fetched_through)
      (refetch (text "dsc_1") 110 (text "operator") (eight 115) idle.ledger).1.schedules
    ≡ some 109 ∷ []
unfolding refetch not_claimable update_where select_where text_eq
skipped = refl

-- After a run at eight, the next day asks from its own beginning: the rest of the day is not asked for.
rest_of_day : map (λ o. window o 104) answered.schedules ≡ (some 104, some 104) ∷ []
unfolding finished claim_schedule most_overdue is_claimable select_where update_where text_eq
    open_run window is_finished
rest_of_day = refl
