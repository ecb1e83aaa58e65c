-- ===== src/Schedules/Coverage/Ended.antt =====
-- `DownloadSchedules.finished` of painfree/schedule.py moves the mark only behind an answer.
use mathlib.Core.List.{Memᴰ}
use painfree_ebics_middlewar.Prelude.{
  ℕ, ltb, Text, text_eq, text_eq→eq, text_eq_iff, Bool, true, false, not, Bool-cases, List, [], ◌∷◌,
  update_where, select_where, All, All-update_where, All-updated, All-Memᴰ, Memᴰ-kept, Memᴰ-changed,
  ◌≡◌, refl, sym, ◌∙◌, subst, inl, inr, arith,
}
use painfree_ebics_middlewar.Schedules.Rows.{
  RunState, is_finished, ScheduleRow, RunRow, is_schedule, is_run,
}
use painfree_ebics_middlewar.Schedules.Claim.{ClaimedSchedule}
use painfree_ebics_middlewar.Schedules.Finish.{RunEnd, ended_values, released_values, finished}
use painfree_ebics_middlewar.Schedules.Steps.{System, without_claim}
use painfree_ebics_middlewar.Schedules.Coverage.{
  Answered, IsAnswer, IsCovered, NotEnded, ClaimRight, Right, IsCovered-more, AsksOn-more,
}

All-select_where :
    (p : ClaimedSchedule → Bool) (P Q : ClaimedSchedule → Type 0)
    → ((c : ClaimedSchedule) → p c ≡ true → P c → Q c)
    → (cs : List ClaimedSchedule) → All P cs
    → All Q (select_where p cs)
unfolding select_where
All-select_where p P Q h [] held = tt
All-select_where p P Q h (c ∷ cs) held = elim (Bool-cases (p c)) [
  | inl e ↦ rw e (h c e held.0, All-select_where p P Q h cs held.1)
  | inr e ↦ rw e (All-select_where p P Q h cs held.1)
]

is_false : (b : Bool) → not b ≡ true → b ≡ false
is_false true h = sym h
is_false false h = refl

is_finished-IsAnswer : (state : RunState) → is_finished state ≡ true → IsAnswer state
unfolding is_finished
is_finished-IsAnswer RunState.running h = cc
is_finished-IsAnswer RunState.complete h = inl refl
is_finished-IsAnswer RunState.empty h = inr refl
is_finished-IsAnswer RunState.refused h = cc
is_finished-IsAnswer RunState.failed h = cc

running-IsAnswer : (state : RunState) → state ≡ RunState.running → IsAnswer state → ⊥
running-IsAnswer state e (inl f) = cc
running-IsAnswer state e (inr f) = cc

module _ (id : Text) (start : ℕ) where
  finished-Answered :
      (c : ClaimedSchedule) (e : RunEnd) (now : ℕ) (runs : List RunRow)
      → All (NotEnded c) runs
      → (day : ℕ) → Answered id runs day
      → Answered id (update_where (is_run c.run_id) (ended_values e now) runs) day
  finished-Answered c e now runs going day (r, m, own, done, spans) =
      elim (Bool-cases (is_run c.run_id r)) [
        | inl is_c ↦
            absurd (running-IsAnswer r.state (All-Memᴰ (NotEnded c) runs going m is_c) done)
        | inr other ↦
            (r, Memᴰ-kept (is_run c.run_id) (ended_values e now) runs m other, own, done, spans)
      ]

  -- A claim with another run is not touched.
  finished-ClaimRight :
      (c x : ClaimedSchedule) (e : RunEnd) (now : ℕ) (runs : List RunRow)
      → All (NotEnded c) runs
      → not (text_eq x.run_id c.run_id) ≡ true
      → ClaimRight id start runs x
      → ClaimRight id start (update_where (is_run c.run_id) (ended_values e now) runs) x
  finished-ClaimRight c x e now runs going other ((r, m, is_x, own, from, to), asks, not_ended) = (
    (
      r,
      Memᴰ-kept (is_run c.run_id) (ended_values e now) runs m (apart r is_x),
      is_x,
      own,
      from,
      to,
    ),
    AsksOn-more id start runs (update_where (is_run c.run_id) (ended_values e now) runs)
        (finished-Answered c e now runs going) x asks,
    All-update_where (is_run c.run_id) (ended_values e now)
        (λ r is_c h is_x. let no : true ≡ false = sym is_c ∙ apart r is_x in absurd (cc)) runs
        not_ended,
  )
    where
      apart : (r : RunRow) → is_run x.run_id r ≡ true → is_run c.run_id r ≡ false
      apart r is_x =
          subst (λ t. text_eq t c.run_id ≡ false) (sym (text_eq→eq r.run_id x.run_id is_x))
            (is_false (text_eq x.run_id c.run_id) other)

  -- The schedule of a run that ended.
  released-IsCovered :
      (c : ClaimedSchedule) (e : RunEnd) (now jitter : ℕ) (runs : List RunRow) (o : ScheduleRow)
      → ClaimRight id start runs c
      → is_schedule c.schedule.schedule_id o ≡ true
      → IsCovered id start runs o
      → IsCovered id start
          (update_where (is_run c.run_id) (ended_values e now) runs)
          (released_values c e now jitter o)
  released-IsCovered c e now jitter runs o ((r, m, is_c, same, from, to), asks, going) is_own h
        own =
      let same_id : c.schedule.schedule_id ≡ id =
        sym (text_eq→eq o.schedule_id c.schedule.schedule_id is_own)
        ∙ text_eq→eq o.schedule_id id own in
      let (a, b, starts, stops, before) =
        asks ((text_eq_iff c.schedule.schedule_id id).1 same_id) in
      let (w, days, mark, is_mark, covered) = h own in
      let kept = finished-Answered c e now runs going in
      elim (Bool-cases (is_finished e.state)) [
        | inl done ↦ (
          w,
          days,
          b,
          rw (done, stops) refl,
          λ day after behind. elim (Bool-cases (ltb day a)) [
            | inl early ↦ kept day (before day after (ground arith))
            | inr late ↦ (
              ended_values e now r,
              Memᴰ-changed (is_run c.run_id) (ended_values e now) runs m is_c,
              same ∙ same_id,
              (is_finished-IsAnswer e.state done),
              rw (from ∙ starts, to ∙ stops) ((ground arith), (ground arith)),
            )
          ],
        )
        | inr done ↦ (
          w,
          days,
          mark,
          rw done is_mark,
          λ day after behind. kept day (covered day after behind),
        )
      ]

  pub finished-Right :
      (c : ClaimedSchedule) (e : RunEnd) (now jitter : ℕ) (s : System)
      → Memᴰ c s.claims
      → Right id start s
      → Right id start (record {
        ledger = finished c e now jitter s.ledger;
        claims = without_claim c.run_id s.claims;
      })
  unfolding finished
  finished-Right c e now jitter s m (rows, held) =
      let mine = All-Memᴰ (ClaimRight id start s.ledger.runs) s.claims held m in
      let going = mine.2 in
      (
        All-updated (is_schedule c.schedule.schedule_id) (released_values c e now jitter)
            (λ o is_own h. released-IsCovered c e now jitter s.ledger.runs o mine is_own h)
            (λ o other h.
              IsCovered-more id start s.ledger.runs _
                (finished-Answered c e now s.ledger.runs going) o h)
            s.ledger.schedules rows,
        All-select_where (λ x. not (text_eq x.run_id c.run_id)) (ClaimRight id start s.ledger.runs)
            _ (λ x other h. finished-ClaimRight c x e now s.ledger.runs going other h) s.claims
            held,
      )
