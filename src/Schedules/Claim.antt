-- ===== src/Schedules/Claim.antt =====
-- `DownloadSchedules.claim` of painfree/schedule.py, and the window that a run asks for.
use painfree_ebics_middlewar.Prelude.{
  ℕ, ◌+◌, ◌-◌, ◌==◌, min, Text, Bool, false, ◌&&◌, ◌||◌, leb, ltb, Option, none, some, is_none,
  is_some, List, [], ◌∷◌, ◌++◌, first, update_where, select_where, if◌then◌else◌,
}
use painfree_ebics_middlewar.Schedules.Rows.{
  RunState, ScheduleRow, RunRow, Ledger, date_of, is_schedule, has_seq,
}

-- The first day of a window: the day after the mark, or `window_days` before today, and not after today.
abbrev pub first_day : (mark : Option ℕ) → (days today : ℕ) → ℕ
first_day none days today = min (today - days) today
first_day (some mark) days today = min (mark + 1) today

-- `Schedule.window`: the `DateRange` of a run, or none.
unfoldable pub window : ScheduleRow → (today : ℕ) → Option ℕ × Option ℕ
window o today = elim o.window_days [
  | none ↦ (none, none)
  | some days ↦ (some (first_day o.fetched_through days today), some today)
]

-- `ClaimedSchedule`.
pub record ClaimedSchedule : Type 0 where
  pub schedule : ScheduleRow
  pub run_id : Text
  pub worker_id : Text
  pub window_start : Option ℕ
  pub window_end : Option ℕ

abbrev is_overdue : ScheduleRow → (now : ℕ) → Bool
is_overdue o now = is_none o.claimed_at && leb o.due_at now

abbrev has_lapsed : Option ℕ → (expired : ℕ) → Bool
has_lapsed none expired = false
has_lapsed (some t) expired = ltb t expired

-- The conditions of `_candidate`.
unfoldable pub is_claimable : (now expired : ℕ) → ScheduleRow → Bool
is_claimable now expired o = o.enabled && (is_overdue o now || has_lapsed o.claimed_at expired)

-- The order of `_candidate`: most overdue first.
abbrev comes_before : ScheduleRow → ScheduleRow → Bool
comes_before o p = ltb o.due_at p.due_at || (o.due_at == p.due_at && ltb o.seq p.seq)

abbrev front : ScheduleRow → Option ScheduleRow → ScheduleRow
front o none = o
front o (some p) = if comes_before p o then p else o

-- `_candidate`: the row that comes first.
unfoldable pub most_overdue : (ScheduleRow → Bool) → List ScheduleRow → Option ScheduleRow
most_overdue can [] = none
most_overdue can (o ∷ os) =
    let rest = most_overdue can os in if can o then some (front o rest) else rest

-- The values that a claim writes.
abbrev pub taken_values : (worker : Text) → (now : ℕ) → ScheduleRow → ScheduleRow
taken_values worker now o = record o {
  worker_id = some worker;
  claimed_at = some now;
  updated_at = now;
}

abbrev opened_run : ClaimedSchedule → (now : ℕ) → RunRow
opened_run c now = record {
  run_id = c.run_id;
  schedule_id = c.schedule.schedule_id;
  connection_id = c.schedule.connection_id;
  worker_id = c.worker_id;
  state = RunState.running;
  window_start = c.window_start;
  window_end = c.window_end;
  transaction_id = none;
  bank_order_id = none;
  return_code = none;
  report_text = none;
  acknowledged = false;
  segments = 0;
  bytes = 0;
  documents = 0;
  statements = 0;
  duplicates = 0;
  last_error = none;
  requested_by = c.schedule.run_requested_by;
  started_at = now;
  finished_at = none;
}

-- `_open_run`: the row of the ledger, which takes over who asked for the run.
unfoldable pub open_run : ClaimedSchedule → (now : ℕ) → Ledger → Ledger
open_run c now s = record {
  schedules =
      update_where
        (λ o. is_schedule c.schedule.schedule_id o && is_some c.schedule.run_requested_by)
        (λ o. record o { run_requested_by = none }) s.schedules;
  runs = s.runs ++ (opened_run c now ∷ []);
}

abbrev pub claimed_schedule : (worker run_id : Text) → (now : ℕ) → ScheduleRow → ClaimedSchedule
claimed_schedule worker run_id now o =
    let (start, stop) = window o (date_of now) in
    record {
      schedule = o;
      run_id = run_id;
      worker_id = worker;
      window_start = start;
      window_end = stop;
    }

-- What is made of the row that the `UPDATE` gives back.
abbrev pub open_claim :
    (worker run_id : Text)
    → (now : ℕ) → Option ScheduleRow
    → Ledger
    → Option ClaimedSchedule × Ledger
open_claim worker run_id now none s = (none, s)
open_claim worker run_id now (some o) s =
    let c = claimed_schedule worker run_id now (taken_values worker now o) in
    (some c, open_run c now s)

abbrev pub take_candidate :
    (worker run_id : Text)
    → (now : ℕ) → Ledger
    → Option ScheduleRow
    → Option ClaimedSchedule × Ledger
take_candidate worker run_id now s none = (none, s)
take_candidate worker run_id now s (some p) =
    open_claim worker run_id now (first (select_where (has_seq p.seq) s.schedules))
      (record s { schedules = update_where (has_seq p.seq) (taken_values worker now) s.schedules })

-- `claim`; the id of the run is fresh.
unfoldable pub claim_schedule :
    (worker run_id : Text) → (now lease : ℕ) → Ledger → Option ClaimedSchedule × Ledger
claim_schedule worker run_id now lease s =
    take_candidate worker run_id now s (most_overdue (is_claimable now (now - lease)) s.schedules)
