-- ===== src/Schedules/Coverage/Claimed.antt =====
-- `DownloadSchedules.claim` of painfree/schedule.py asks for the days behind the mark.
use mathlib.Core.List.{Memᴰ}
use mathlib.Core.List.Memᴰ
use painfree_ebics_middlewar.Prelude.{
  ℕ, ◌+◌, ◌-◌, min, Text, text_eq_refl, Bool, true, false, any, any-false, Bool-cases, Option, none,
  some, List, [], ◌∷◌, ◌++◌, first, update_where, select_where, All, All-append, All-update_where,
  All-Memᴰ, map-All, ◌≡◌, refl, sym, ap, ◌∙◌, inl, inr, arith,
}
use painfree_ebics_middlewar.Schedules.Rows.{
  RunState, ScheduleRow, RunRow, Ledger, date_of, is_run, has_seq,
}
use painfree_ebics_middlewar.Schedules.Claim.{
  window, ClaimedSchedule, is_claimable, most_overdue, taken_values, open_run, claimed_schedule,
  open_claim, take_candidate, claim_schedule,
}
use painfree_ebics_middlewar.Schedules.Steps.{System, with_claim, is_known}
use painfree_ebics_middlewar.Schedules.Coverage.{
  Answered, IsCovered, AsksOn, NotEnded, ClaimRight, Right, IsCovered-more, AsksOn-more,
}

first_Memᴰ :
    (p : ScheduleRow → Bool) (xs : List ScheduleRow) (o : ScheduleRow)
    → first (select_where p xs) ≡ some o
    → Memᴰ o xs
unfolding select_where
first_Memᴰ p [] o h = cc
first_Memᴰ p (x ∷ xs) o h = elim (Bool-cases (p x)) [
  | inl e ↦ let same : some x ≡ some o = rw e at h in Memᴰ.head (cc)
  | inr e ↦ Memᴰ.tail (first_Memᴰ p xs o (rw e at h))
]

window-some :
    (o : ScheduleRow) (w m today : ℕ)
    → o.window_days ≡ some w
    → o.fetched_through ≡ some m
    → window o today ≡ (some (min (m + 1) today), some today)
unfolding window
window-some o w m today days mark = rw (days, mark) refl

module _ (id : Text) (start : ℕ) where
  Answered-added :
      (runs : List RunRow) (r : RunRow) (day : ℕ)
      → Answered id runs day
      → Answered id (runs ++ (r ∷ [])) day
  Answered-added runs r day (x, m, own, done, spans) =
      (x, Memᴰ.append_left (r ∷ []) m, own, done, spans)

  ClaimRight-added :
      (runs : List RunRow) (r : RunRow) (c : ClaimedSchedule)
      → r.state ≡ RunState.running
      → ClaimRight id start runs c
      → ClaimRight id start (runs ++ (r ∷ [])) c
  ClaimRight-added runs r c going ((x, m, is_c, own, from, to), asks, not_ended) = (
    (x, Memᴰ.append_left (r ∷ []) m, is_c, own, from, to),
    AsksOn-more id start runs (runs ++ (r ∷ [])) (Answered-added runs r) c asks,
    All-append (NotEnded c) runs (r ∷ []) not_ended ((λ is_c. going), tt),
  )

  claimed-AsksOn :
      (worker run_id : Text) (now : ℕ) (runs : List RunRow) (r : RunRow) (o : ScheduleRow)
      → IsCovered id start runs o
      → AsksOn id start
          (runs ++ (r ∷ []))
          (claimed_schedule worker run_id now (taken_values worker now o))
  claimed-AsksOn worker run_id now runs r o covered own =
      let (w, days, m, mark, before) = covered own in
      let asked = window-some (taken_values worker now o) w m (date_of now) days mark in
      (
        min (m + 1) (date_of now),
        date_of now,
        ap (λ p. p.0) asked,
        ap (λ p. p.1) asked,
        λ day after behind. Answered-added runs r day (before day after (omega (arith, behind))),
      )

  new-NotEnded :
      (c : ClaimedSchedule) (runs : List RunRow) (r : RunRow)
      → any (is_run c.run_id) runs ≡ false
      → r.state ≡ RunState.running
      → All (NotEnded c) (runs ++ (r ∷ []))
  new-NotEnded c runs r fresh going =
      All-append (NotEnded c) runs (r ∷ [])
        (map-All (λ x other is_c. let no : true ≡ false = sym is_c ∙ other in absurd (cc)) runs
          (any-false (is_run c.run_id) runs fresh))
        ((λ is_c. going), tt)

  -- A claim that got a row opens its run.
  open_claim-Right :
      (worker run_id : Text) (now : ℕ) (s : Ledger) (n : ℕ) (claims : List ClaimedSchedule)
      (found : Option ScheduleRow)
      → ((o : ScheduleRow) → found ≡ some o → Memᴰ o s.schedules)
      → is_known run_id s ≡ false
      → All (IsCovered id start s.runs) s.schedules
      → All (ClaimRight id start s.runs) claims
      → Right id start (record {
        ledger =
            (open_claim worker run_id now found (record s {
              schedules = update_where (has_seq n) (taken_values worker now) s.schedules;
            })).1;
        claims =
            with_claim
              (open_claim worker run_id now found (record s {
                schedules = update_where (has_seq n) (taken_values worker now) s.schedules;
              })).0
              claims;
      })
  unfolding open_run
  open_claim-Right worker run_id now s n claims none is_in fresh rows held =
      (All-update_where (has_seq n) (taken_values worker now) (λ x e h. h) s.schedules rows, held)
  open_claim-Right worker run_id now s n claims (some o) is_in fresh rows held =
      let c = claimed_schedule worker run_id now (taken_values worker now o) in
      let taken =
        All-update_where (has_seq n) (taken_values worker now) (λ x e h. h) s.schedules rows in
      (
        All-update_where _ _ (λ x e h. h) _
            (map-All (IsCovered-more id start s.runs _ (Answered-added s.runs _)) _ taken),
        (
          (
            (_, Memᴰ.append_right s.runs (Memᴰ.head refl), text_eq_refl run_id, refl, refl, refl),
            claimed-AsksOn worker run_id now s.runs _ o
                (All-Memᴰ (IsCovered id start s.runs) s.schedules rows (is_in o refl)),
            new-NotEnded c s.runs _ fresh refl,
          ),
          map-All (λ x h. ClaimRight-added s.runs _ x refl h) claims held,
        ),
      )

  pub claim_schedule-Right :
      (worker run_id : Text) (now lease : ℕ) (s : System)
      → is_known run_id s.ledger ≡ false
      → Right id start s
      → Right id start (record {
        ledger = (claim_schedule worker run_id now lease s.ledger).1;
        claims = with_claim (claim_schedule worker run_id now lease s.ledger).0 s.claims;
      })
  unfolding claim_schedule
  claim_schedule-Right worker run_id now lease s fresh (rows, held) =
      take (most_overdue (is_claimable now (now - lease)) s.ledger.schedules)
    where
      take :
          (found : Option ScheduleRow)
          → Right id start (record {
            ledger = (take_candidate worker run_id now s.ledger found).1;
            claims = with_claim (take_candidate worker run_id now s.ledger found).0 s.claims;
          })
      take none = (rows, held)
      take (some p) =
          open_claim-Right worker run_id now s.ledger p.seq s.claims
            (first (select_where (has_seq p.seq) s.ledger.schedules))
            (λ o e. first_Memᴰ (has_seq p.seq) s.ledger.schedules o e) fresh rows held
