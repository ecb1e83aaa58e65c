-- ===== src/Schedules/Steps.antt =====
-- What happens to the schedules, as a relation: the tables, and the claims whose runs have not ended.
use mathlib.Core.List.{Memᴰ}
use painfree_ebics_middlewar.Prelude.{
  ℕ, ◌+◌, ◌≤◌, Text, text_eq, Bool, true, false, not, any, Option, none, some, List, ◌∷◌,
  select_where, All, ◌≡◌,
}
use painfree_ebics_middlewar.Schedules.Rows.{ScheduleRow, Ledger, is_schedule, is_run}
use painfree_ebics_middlewar.Schedules.Claim.{ClaimedSchedule, claim_schedule}
use painfree_ebics_middlewar.Schedules.Finish.{RunEnd, finished}
use painfree_ebics_middlewar.Schedules.Manage.{run_now, refetch, pause_schedule}

pub record System : Type 0 where
  pub ledger : Ledger
  pub claims : List ClaimedSchedule

abbrev pub with_claim : Option ClaimedSchedule → List ClaimedSchedule → List ClaimedSchedule
with_claim none claims = claims
with_claim (some c) claims = c ∷ claims

abbrev pub without_claim : (run_id : Text) → List ClaimedSchedule → List ClaimedSchedule
without_claim run_id claims = select_where (λ c. not (text_eq c.run_id run_id)) claims

abbrev pub is_known : (run_id : Text) → Ledger → Bool
is_known run_id s = any (is_run run_id) s.runs

-- The mark of a schedule is not in front of the day before `since`.
abbrev pub IsRewind : Text → (since : ℕ) → ScheduleRow → Type 0
IsRewind id since o =
    is_schedule id o ≡ true → (m : ℕ) × (o.fetched_through ≡ some m) × (since ≤ m + 1)

-- A worker claims under a fresh id; a run that was claimed ends, however late; an operator asks for a run,
-- for days again that are behind the mark, or pauses or enables a schedule.
pub data Step : System → System → Type 0 where
  takes :
      (worker run_id : Text)
      → (now lease : ℕ) → (s : System) → is_known run_id s.ledger ≡ false
      → Step s (record {
        ledger = (claim_schedule worker run_id now lease s.ledger).1;
        claims = with_claim (claim_schedule worker run_id now lease s.ledger).0 s.claims;
      })
  ends :
      (c : ClaimedSchedule)
      → (e : RunEnd) → (now jitter : ℕ) → (s : System) → Memᴰ c s.claims
      → Step s (record {
        ledger = finished c e now jitter s.ledger;
        claims = without_claim c.run_id s.claims;
      })
  runs_now :
      (id requested_by : Text)
      → (now : ℕ) → (s : System)
      → Step s (record s { ledger = (run_now id requested_by now s.ledger).1 })
  refetches :
      (id : Text)
      → (since : ℕ) → (requested_by : Text) → (now : ℕ) → (s : System)
      → All (IsRewind id since) s.ledger.schedules
      → Step s (record s { ledger = (refetch id since requested_by now s.ledger).1 })
  pauses :
      (id : Text)
      → (enabled : Bool) → (now : ℕ) → (s : System)
      → Step s (record s { ledger = (pause_schedule id enabled now s.ledger).1 })

pub data Steps : System → System → Type 0 where
  here : (s : System) → Steps s s
  then : {s t u : System} → Steps s t → Step t u → Steps s u
