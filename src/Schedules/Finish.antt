-- ===== src/Schedules/Finish.antt =====
-- `DownloadSchedules.finished` of painfree/schedule.py, and when a schedule is due again.
use painfree_ebics_middlewar.Prelude.{
  ℕ, ◌+◌, ◌-◌, ◌*◌, min, Text, is_empty, Bool, Option, none, some, update_where, if◌then◌else◌,
}
use painfree_ebics_middlewar.Orders.Queue.{seconds}
use painfree_ebics_middlewar.Webhooks.Finish.{short_error}
use painfree_ebics_middlewar.Cron.Expressions.{Read, ok, refused, Cron, parse}
use painfree_ebics_middlewar.Cron.Search.{minute_length, next_after}
use painfree_ebics_middlewar.Schedules.Rows.{
  RunState, is_finished, ScheduleRow, RunRow, Ledger, date_of, is_schedule, is_run,
}
use painfree_ebics_middlewar.Schedules.Claim.{ClaimedSchedule}

-- How a run ended: the arguments of `finished`.
pub record RunEnd : Type 0 where
  pub state : RunState
  pub return_code : Option Text
  pub report_text : Option Text
  pub transaction_id : Option Text
  pub bank_order_id : Option Text
  pub acknowledged : Bool
  pub segments : ℕ
  pub byte_count : ℕ
  pub documents : ℕ
  pub statements : ℕ
  pub duplicates : ℕ
  pub error : Option Text

-- `RETRY_AFTER`.
abbrev retry_after : ℕ
retry_after = seconds 300

-- `_short(text) if text else None`.
abbrev short_or_none : Option Text → Option Text
short_or_none none = none
short_or_none (some t) = if is_empty t then none else some (short_error t)

-- A tenth of the cadence, in microseconds.
abbrev jitter_spread : (cadence_seconds : ℕ) → ℕ
jitter_spread cadence_seconds = cadence_seconds * 100000

-- The cadence with the jitter: `jitter` is how far the random number is above its lower bound.
abbrev by_cadence : ScheduleRow → (now jitter : ℕ) → ℕ
by_cadence o now jitter =
    now + (seconds o.cadence_seconds - jitter_spread o.cadence_seconds) + jitter

abbrev at_minute : ScheduleRow → (now jitter : ℕ) → Option ℕ → ℕ
at_minute o now jitter none = by_cadence o now jitter
at_minute o now jitter (some minute) = minute * minute_length

abbrev by_cron : ScheduleRow → (now jitter : ℕ) → Read Cron → ℕ
by_cron o now jitter (ok c) = at_minute o now jitter (next_after c now)
by_cron o now jitter (refused e) = by_cadence o now jitter

abbrev by_rule : ScheduleRow → (now jitter : ℕ) → Option Text → ℕ
by_rule o now jitter none = by_cadence o now jitter
by_rule o now jitter (some expression) =
    if is_empty expression then by_cadence o now jitter else by_cron o now jitter (parse expression)

-- `_next_due`.
unfoldable pub next_due : ScheduleRow → (now jitter : ℕ) → (moved_on : Bool) → ℕ
next_due o now jitter moved_on =
    if moved_on
    then by_rule o now jitter o.cron
    else now + min (seconds o.cadence_seconds) retry_after

-- `window_end or now.date()`.
abbrev pub or_today : Option ℕ → (now : ℕ) → ℕ
or_today none now = date_of now
or_today (some day) now = day

-- The values of the run.
abbrev pub ended_values : RunEnd → (now : ℕ) → RunRow → RunRow
ended_values e now r = record r {
  state = e.state;
  finished_at = some now;
  return_code = e.return_code;
  report_text = short_or_none e.report_text;
  transaction_id = e.transaction_id;
  bank_order_id = e.bank_order_id;
  acknowledged = e.acknowledged;
  segments = e.segments;
  bytes = e.byte_count;
  documents = e.documents;
  statements = e.statements;
  duplicates = e.duplicates;
  last_error = short_or_none e.error;
}

-- The values of the schedule.
abbrev pub released_values : ClaimedSchedule → RunEnd → (now jitter : ℕ) → ScheduleRow → ScheduleRow
released_values c e now jitter o = record o {
  worker_id = none;
  claimed_at = none;
  last_run_at = some now;
  last_return_code = e.return_code;
  last_error = short_or_none e.error;
  updated_at = now;
  due_at = next_due c.schedule now jitter (is_finished e.state);
  fetched_through =
      if is_finished e.state then some (or_today c.window_end now) else o.fetched_through;
}

-- `finished`.
unfoldable pub finished : ClaimedSchedule → RunEnd → (now jitter : ℕ) → Ledger → Ledger
finished c e now jitter s = record {
  schedules =
      update_where (is_schedule c.schedule.schedule_id) (released_values c e now jitter)
        s.schedules;
  runs = update_where (is_run c.run_id) (ended_values e now) s.runs;
}
