-- ===== src/Schedules/Manage.antt =====
-- What an operator does with a schedule: `run_now`, `refetch` and `set_enabled` of painfree/schedule.py.
use painfree_ebics_middlewar.Prelude.{
  ℕ, ◌-◌, Text, Bool, true, not, ltb, is_some, is_none, Option, none, some, first, update_where,
  select_where, if◌then◌else◌,
}
use painfree_ebics_middlewar.Schedules.Rows.{ScheduleRow, Ledger, date_of, is_schedule}

-- What the operations raise.
pub data ScheduleError : Type 0 where
  no_such_schedule disabled already_running no_window in_the_future : ScheduleError

pub data Requested : Type 0 where
  requested : Requested
  refused : ScheduleError → Requested

-- `_write`.
abbrev pub write_schedule : Text → (ScheduleRow → ScheduleRow) → Ledger → Ledger
write_schedule id values s = record s {
  schedules = update_where (is_schedule id) values s.schedules;
}

abbrev pub found_schedule : Text → Ledger → Option ScheduleRow
found_schedule id s = first (select_where (is_schedule id) s.schedules)

-- `_claimable`: the reason to refuse.
unfoldable pub not_claimable : Option ScheduleRow → Option ScheduleError
not_claimable none = some no_such_schedule
not_claimable (some o) =
    if not o.enabled
    then some disabled
    else if is_some o.claimed_at
    then some already_running
    else none

abbrev pub due_values : (requested_by : Text) → (now : ℕ) → ScheduleRow → ScheduleRow
due_values requested_by now o = record o {
  due_at = now;
  run_requested_by = some requested_by;
  updated_at = now;
}

abbrev pub or_due :
    Text → (requested_by : Text) → (now : ℕ) → Ledger → Option ScheduleError → Requested × Ledger
or_due id requested_by now s (some e) = (refused e, s)
or_due id requested_by now s none = (requested, write_schedule id (due_values requested_by now) s)

-- `run_now`.
unfoldable pub run_now : Text → (requested_by : Text) → (now : ℕ) → Ledger → Requested × Ledger
run_now id requested_by now s = or_due id requested_by now s (not_claimable (found_schedule id s))

abbrev pub rewound_values :
    (since : ℕ) → (requested_by : Text) → (now : ℕ) → ScheduleRow → ScheduleRow
rewound_values since requested_by now o = record o {
  fetched_through = some (since - 1);
  due_at = now;
  run_requested_by = some requested_by;
  updated_at = now;
}

abbrev pub window_missing : Option ScheduleRow → Bool
window_missing none = true
window_missing (some o) = is_none o.window_days

abbrev pub or_rewound :
    Text
    → (since : ℕ) → (requested_by : Text) → (now : ℕ) → Ledger
    → Option ScheduleError
    → Requested × Ledger
or_rewound id since requested_by now s (some e) = (refused e, s)
or_rewound id since requested_by now s none =
    if window_missing (found_schedule id s)
    then (refused no_window, s)
    else if ltb (date_of now) since
    then (refused in_the_future, s)
    else (requested, write_schedule id (rewound_values since requested_by now) s)

-- `refetch`: the mark goes to the day before `since`, wherever it was.
unfoldable pub refetch :
    Text → (since : ℕ) → (requested_by : Text) → (now : ℕ) → Ledger → Requested × Ledger
refetch id since requested_by now s =
    or_rewound id since requested_by now s (not_claimable (found_schedule id s))

abbrev pub or_enabled :
    Text → (enabled : Bool) → (now : ℕ) → Ledger → Option ScheduleRow → Requested × Ledger
or_enabled id enabled now s none = (refused no_such_schedule, s)
or_enabled id enabled now s (some o) = (
  requested,
  write_schedule id (λ (o : ScheduleRow). record o { enabled = enabled; updated_at = now }) s,
)

-- `set_enabled`, an `update` of the one column.
unfoldable pub pause_schedule : Text → (enabled : Bool) → (now : ℕ) → Ledger → Requested × Ledger
pause_schedule id enabled now s = or_enabled id enabled now s (found_schedule id s)
