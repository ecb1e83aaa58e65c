-- ===== src/Schedules/Coverage.antt =====
-- Which days the runs of a schedule have covered: the invariant on the tables of painfree/schedule.py and
-- on the claims whose runs have not ended.
pub mod Claimed
pub mod Ended
pub mod History
use mathlib.Core.List.{Memᴰ}
use mathlib.Core.List.Memᴰ
use painfree_ebics_middlewar.Prelude.{
  ℕ, ◌+◌, ◌-◌, ◌≤◌, ◌<◌, min, ltb, leb, Text, text_eq, text_eq_refl, text_eq→eq, text_eq_iff, Bool,
  true, false, not, ◌&&◌, any, any-false, Bool-cases, Option, Option-cases, none, some, List, [],
  ◌∷◌, ◌++◌, first, update_where, select_where, All, All-append, All-update_where, All-updated,
  All-Memᴰ, map-All, zip-All, Memᴰ-kept, Memᴰ-changed, ◌≡◌, refl, sym, ap, ◌∙◌, subst, inl, inr,
  ◌⊎◌, arith,
}
use painfree_ebics_middlewar.Schedules.Rows.{
  RunState, is_finished, ScheduleRow, RunRow, Ledger, date_of, is_schedule, is_run, has_seq,
}
use painfree_ebics_middlewar.Schedules.Claim.{
  window, ClaimedSchedule, is_claimable, most_overdue, taken_values, open_run, claimed_schedule,
  open_claim, take_candidate, claim_schedule,
}
use painfree_ebics_middlewar.Schedules.Finish.{RunEnd, ended_values, released_values, finished}
use painfree_ebics_middlewar.Schedules.Manage.{
  ScheduleError, write_schedule, not_claimable, found_schedule, window_missing, due_values, or_due,
  rewound_values, or_rewound, or_enabled, run_now, refetch, pause_schedule,
}
use painfree_ebics_middlewar.Schedules.Steps.{
  System, with_claim, without_claim, is_known, IsRewind, Step, takes, ends, runs_now, refetches,
  pauses, Steps, here, then,
}

abbrev pub Spans : (start stop : Option ℕ) → ℕ → Type 0
Spans (some a) (some b) day = (a ≤ day) × (day ≤ b)
Spans _ _ day = ⊥

-- The ends of a run by which the bank answered for its window.
abbrev pub IsAnswer : RunState → Type 0
IsAnswer state = (state ≡ RunState.complete) ⊎ (state ≡ RunState.empty)

-- A day in the window of a run of the schedule that the bank answered.
abbrev pub Answered : Text → List RunRow → ℕ → Type 0
Answered id runs day =
    (r : RunRow) × Memᴰ r runs
    × (r.schedule_id ≡ id)
    × IsAnswer r.state
    × Spans r.window_start r.window_end day

-- Every day from one after the start, up to the one in front of a day.
abbrev pub UpTo : Text → (start : ℕ) → List RunRow → ℕ → Type 0
UpTo id start runs n = (day : ℕ) → start < day → day < n → Answered id runs day

-- A schedule that asks for dates, whose mark has only answered days behind it.
abbrev pub IsCovered : Text → (start : ℕ) → List RunRow → ScheduleRow → Type 0
IsCovered id start runs o =
    is_schedule id o ≡ true
    → (w : ℕ) × (o.window_days ≡ some w)
      × (m : ℕ) × (o.fetched_through ≡ some m)
      × UpTo id start runs (m + 1)

abbrev pub OpenedAs : List RunRow → ClaimedSchedule → Type 0
OpenedAs runs c =
    (r : RunRow) × Memᴰ r runs
    × (is_run c.run_id r ≡ true)
    × (r.schedule_id ≡ c.schedule.schedule_id)
    × (r.window_start ≡ c.window_start)
    × (r.window_end ≡ c.window_end)

abbrev pub AsksOn : Text → (start : ℕ) → List RunRow → ClaimedSchedule → Type 0
AsksOn id start runs c =
    is_schedule id c.schedule ≡ true
    → (a : ℕ) × (b : ℕ) × (c.window_start ≡ some a) × (c.window_end ≡ some b) × UpTo id start runs a

abbrev pub NotEnded : ClaimedSchedule → RunRow → Type 0
NotEnded c r = is_run c.run_id r ≡ true → r.state ≡ RunState.running

abbrev pub ClaimRight : Text → (start : ℕ) → List RunRow → ClaimedSchedule → Type 0
ClaimRight id start runs c = OpenedAs runs c × AsksOn id start runs c × All (NotEnded c) runs

abbrev pub Right : Text → (start : ℕ) → System → Type 0
Right id start s =
    All (IsCovered id start s.ledger.runs) s.ledger.schedules
    × All (ClaimRight id start s.ledger.runs) s.claims

module _ (id : Text) (start : ℕ) where
  -- More is answered, in a ledger that grew.
  pub IsCovered-more :
      (runs later : List RunRow)
      → ((day : ℕ) → Answered id runs day → Answered id later day)
      → (o : ScheduleRow) → IsCovered id start runs o
      → IsCovered id start later o
  IsCovered-more runs later more o h own =
      let (w, days, m, mark, before) = h own in
      (w, days, m, mark, λ day after behind. more day (before day after behind))

  pub AsksOn-more :
      (runs later : List RunRow)
      → ((day : ℕ) → Answered id runs day → Answered id later day)
      → (c : ClaimedSchedule) → AsksOn id start runs c
      → AsksOn id start later c
  AsksOn-more runs later more c h own =
      let (a, b, from, to, before) = h own in
      (a, b, from, to, λ day after behind. more day (before day after behind))
