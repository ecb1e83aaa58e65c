-- ===== src/Schedules/Coverage/History.antt =====
-- Any sequence of claims, ends of runs and requests of operators over painfree/schedule.py.

use painfree_ebics_middlewar.Prelude.{
  ℕ, ◌-◌, ltb, Text, Bool, true, Bool-cases, Option, none, some, List, [], All, All-update_where,
  All-updated, map-All, zip-All, ◌≡◌, refl, sym, ◌∙◌, subst, inl, inr, arith,
}
use painfree_ebics_middlewar.Schedules.Rows.{ScheduleRow, RunRow, date_of, is_schedule}
use painfree_ebics_middlewar.Schedules.Manage.{
  ScheduleError, write_schedule, not_claimable, found_schedule, window_missing, due_values, or_due,
  rewound_values, or_rewound, or_enabled, run_now, refetch, pause_schedule,
}
use painfree_ebics_middlewar.Schedules.Steps.{
  System, IsRewind, Step, takes, ends, runs_now, refetches, pauses, Steps, here, then,
}
use painfree_ebics_middlewar.Schedules.Coverage.{IsCovered, ClaimRight, Right}
use painfree_ebics_middlewar.Schedules.Coverage.Claimed.{claim_schedule-Right}
use painfree_ebics_middlewar.Schedules.Coverage.Ended.{finished-Right}

module _ (id : Text) (start : ℕ) where
  written-Right :
      (other : Text) (f : ScheduleRow → ScheduleRow) (s : System)
      → ((o : ScheduleRow)
          → is_schedule other o ≡ true
          → IsCovered id start s.ledger.runs o
          → IsCovered id start s.ledger.runs (f o))
      → Right id start s
      → Right id start (record s { ledger = write_schedule other f s.ledger })
  written-Right other f s h (rows, held) =
      (All-update_where (is_schedule other) f h s.ledger.schedules rows, held)

  due-Right :
      (other : Text) (requested_by : Text) (now : ℕ) (s : System) (error : Option ScheduleError)
      → Right id start s
      → Right id start (record s { ledger = (or_due other requested_by now s.ledger error).1 })
  due-Right other requested_by now s (some e) w = w
  due-Right other requested_by now s none w =
      written-Right other (due_values requested_by now) s (λ o e h. h) w

  rewound-IsCovered :
      (other : Text) (since : ℕ) (requested_by : Text) (now : ℕ) (runs : List RunRow)
      (o : ScheduleRow)
      → IsRewind other since o
      → is_schedule other o ≡ true
      → IsCovered id start runs o
      → IsCovered id start runs (rewound_values since requested_by now o)
  rewound-IsCovered other since requested_by now runs o rewind is_other h own =
      let (w, days, m, mark, before) = h own in
      let (n, is_n, behind) = rewind is_other in
      let same : some n ≡ some m = sym is_n ∙ mark in
      let same_mark : n ≡ m = cc in
      (w, days, since - 1, refl, λ day after early. before day after (omega (arith, behind, early)))

  -- A refetch that goes back, in all of its branches.
  or_rewound-Right :
      (other : Text) (since : ℕ) (requested_by : Text) (now : ℕ) (s : System)
      (error : Option ScheduleError)
      → All (IsRewind other since) s.ledger.schedules
      → Right id start s
      → Right id start
          (record s { ledger = (or_rewound other since requested_by now s.ledger error).1 })
  or_rewound-Right other since requested_by now s (some e) rewind w = w
  or_rewound-Right other since requested_by now s none rewind w =
      elim (Bool-cases (window_missing (found_schedule other s.ledger))) [
        | inl e ↦ rw e w
        | inr e ↦ elim (Bool-cases (ltb (date_of now) since)) [
          | inl f ↦ rw (e, f) w
          | inr f ↦
              rw (e, f)
                (
                  All-updated (is_schedule other) (rewound_values since requested_by now)
                      (λ o is_other (back, h).
                        rewound-IsCovered other since requested_by now s.ledger.runs o back is_other
                          h)
                      (λ o not_other (back, h). h) s.ledger.schedules
                      (zip-All (IsRewind other since) (IsCovered id start s.ledger.runs)
                        s.ledger.schedules rewind w.0),
                  w.1,
                )
        ]
      ]

  or_enabled-Right :
      (other : Text) (enabled : Bool) (now : ℕ) (s : System) (found : Option ScheduleRow)
      → Right id start s
      → Right id start (record s { ledger = (or_enabled other enabled now s.ledger found).1 })
  or_enabled-Right other enabled now s none w = w
  or_enabled-Right other enabled now s (some o) w = written-Right other _ s (λ x e h. h) w

  Step-Right : {s t : System} → Step s t → Right id start s → Right id start t
  unfolding run_now refetch pause_schedule
  Step-Right (takes worker run_id now lease s fresh) w =
      claim_schedule-Right id start worker run_id now lease s fresh w
  Step-Right (ends c e now jitter s m) w = finished-Right id start c e now jitter s m w
  Step-Right (runs_now other requested_by now s) w =
      due-Right other requested_by now s (not_claimable (found_schedule other s.ledger)) w
  Step-Right (refetches other since requested_by now s back) w =
      or_rewound-Right other since requested_by now s
        (not_claimable (found_schedule other s.ledger)) back w
  Step-Right (pauses other enabled now s) w =
      or_enabled-Right other enabled now s (found_schedule other s.ledger) w

  steps-Right : {s t : System} → Steps s t → Right id start s → Right id start t
  steps-Right (here s) w = w
  steps-Right (then before last) w = Step-Right last (steps-Right before w)

-- At the start no run is under way, and the schedule asks for dates and has the mark.
abbrev pub IsFresh : Text → (start : ℕ) → System → Type 0
IsFresh id start s =
    (s.claims ≡ [])
    × All
        (λ o.
          is_schedule id o ≡ true
          → (w : ℕ) × (o.window_days ≡ some w) × (o.fetched_through ≡ some start))
        s.ledger.schedules

-- No day is left out. Whatever workers claim and how their runs end, however late, and whenever operators
-- ask for runs, fetch again from a day behind the mark, pause and enable: a schedule that asks for dates
-- still does, it has a mark, and every day after its first mark and up to the present one was in the
-- window of a run of this schedule that the bank answered. A run that was refused or failed skips nothing.
pub steps-IsCovered :
    {s t : System} (id : Text) (start : ℕ)
    → Steps s t
    → IsFresh id start s
    → All (IsCovered id start t.ledger.runs) t.ledger.schedules
steps-IsCovered {s} id start history (idle, rows) =
    (steps-Right id start history (
      map-All
          (λ o h own.
            let (w, days, mark) = h own in
            (w, days, start, mark, λ day after early. absurd (omega (arith, after, early))))
          s.ledger.schedules rows,
      subst (All (ClaimRight id start s.ledger.runs)) (sym idle) tt,
    )).0
