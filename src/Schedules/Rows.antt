-- ===== src/Schedules/Rows.antt =====
-- The tables `download_schedule` and `download_run` of painfree/schema.py, without the columns that name
-- the service. A date is the number of its day, counted from the epoch.
use painfree_ebics_middlewar.Prelude.{ℕ, ◌/◌, ◌==◌, Text, text_eq, Bool, true, false, Option, List}
use painfree_ebics_middlewar.Orders.Queue.{seconds}

-- `RUNNING`, `COMPLETE`, `EMPTY`, `REFUSED`, `FAILED`.
pub data RunState : Type 0 where
  running complete empty refused failed : RunState

-- `state in FINISHED`.
unfoldable pub is_finished : RunState → Bool
is_finished RunState.running = false
is_finished RunState.complete = true
is_finished RunState.empty = true
is_finished RunState.refused = false
is_finished RunState.failed = false

pub record ScheduleRow : Type 0 where
  pub seq : ℕ
  pub schedule_id : Text
  pub connection_id : Text
  pub cadence_seconds : ℕ
  pub cron : Option Text
  pub enabled : Bool
  pub window_days : Option ℕ
  pub fetched_through : Option ℕ
  pub due_at : ℕ
  pub worker_id : Option Text
  pub claimed_at : Option ℕ
  pub last_run_at : Option ℕ
  pub last_return_code : Option Text
  pub last_error : Option Text
  pub run_requested_by : Option Text
  pub updated_at : ℕ

pub record RunRow : Type 0 where
  pub run_id : Text
  pub schedule_id : Text
  pub connection_id : Text
  pub worker_id : Text
  pub state : RunState
  pub window_start : Option ℕ
  pub window_end : Option ℕ
  pub transaction_id : Option Text
  pub bank_order_id : Option Text
  pub return_code : Option Text
  pub report_text : Option Text
  pub acknowledged : Bool
  pub segments : ℕ
  pub bytes : ℕ
  pub documents : ℕ
  pub statements : ℕ
  pub duplicates : ℕ
  pub last_error : Option Text
  pub requested_by : Option Text
  pub started_at : ℕ
  pub finished_at : Option ℕ

pub record Ledger : Type 0 where
  pub schedules : List ScheduleRow
  pub runs : List RunRow

-- `now.date()`.
abbrev pub date_of : (now : ℕ) → ℕ
date_of now = now / seconds 86400

abbrev pub is_schedule : Text → ScheduleRow → Bool
is_schedule id o = text_eq o.schedule_id id

abbrev pub is_run : Text → RunRow → Bool
is_run id r = text_eq r.run_id id

abbrev pub has_seq : ℕ → ScheduleRow → Bool
has_seq n o = o.seq == n
