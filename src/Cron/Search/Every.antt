-- ===== src/Cron/Search/Every.antt =====
-- The search skips hours and days, and misses nothing: painfree/cron.py.
use painfree_ebics_middlewar.Prelude.{
  ℕ, zero, suc, ◌+◌, ◌-◌, ◌*◌, ◌/◌, ◌≤◌, ◌<◌, Bool, true, false, not, ◌||◌, Bool-cases, leb, Option,
  none, some, ◌≡◌, refl, subst, sym, ◌∙◌, inl, inr, if◌then◌else◌, arith,
}
use painfree_ebics_middlewar.Cron.Expressions.{Cron, has}
use painfree_ebics_middlewar.Cron.Search.{
  minute_length, day_of, hour_of, minute_of, day_matches, month_matches, matches, horizon, tomorrow,
  next_hour, search, enough_fuel, next_after,
}

-- The first of the `count` minutes from `m` on that matches, if each is looked at.
abbrev pub first_match : Cron → (count : ℕ) → (m : ℕ) → Option ℕ
first_match c zero m = none
first_match c (suc count) m = if matches c m then some m else first_match c count (m + 1)

same_search : (c : Cron) {k n l m : ℕ} → k ≡ l → n ≡ m → first_match c k n ≡ first_match c l m
same_search c e f = rw (e, f) refl

-- Minutes that do not match may be left out.
first_match-skip :
    (c : Cron) (j count m : ℕ)
    → ((i : ℕ) → i < j → matches c (m + i) ≡ false)
    → first_match c count m ≡ first_match c (count - j) (m + j)
first_match-skip c zero count m h = same_search c (omega arith) (omega arith)
first_match-skip c (suc j) zero m h =
    same_search c {k = 0} {n = m + suc j} {m = m + suc j} (omega arith) refl
first_match-skip c (suc j) (suc count) m h =
    let here : matches c m ≡ false = at_start (h 0 (omega arith)) in
    rw here (
      first_match-skip c j count (m + 1) (λ i early. after_start i (h (suc i) (omega arith)))
      ∙ same_search c (omega arith) (omega arith))
  where
    at_start : matches c (m + 0) ≡ false → matches c m ≡ false
    at_start e = let same : m + 0 ≡ m = omega arith in rw same at e

    after_start : (i : ℕ) → matches c (m + suc i) ≡ false → matches c (m + 1 + i) ≡ false
    after_start i e = let same : m + suc i ≡ m + 1 + i = omega arith in rw same at e

same_day : (m i : ℕ) → i < tomorrow m - m → day_of (m + i) ≡ day_of m
same_day m i h = omega arith

same_hour : (m i : ℕ) → i < next_hour m - m → hour_of (m + i) ≡ hour_of m
same_hour m i h = omega arith

later_day : (m : ℕ) → m < tomorrow m
later_day m = omega arith

later_hour : (m : ℕ) → m < next_hour m
later_hour m = omega arith

within_limit : (limit m : ℕ) → leb (m * minute_length) limit ≡ true → m ≤ limit / minute_length
within_limit limit m h = ground arith

beyond_limit : (limit m : ℕ) → leb (m * minute_length) limit ≡ false → limit / minute_length < m
beyond_limit limit m h = ground arith

either_false : (b : Bool) → (if b then false else false) ≡ false
either_false true = refl
either_false false = refl

unmatched_day :
    (a b month day : Bool)
    → not month || not day ≡ true
    → (if not a || not b then false else if not month then false else day) ≡ false
unmatched_day a b false day h = either_false (not a || not b)
unmatched_day a b true false h = either_false (not a || not b)
unmatched_day a b true true h = cc

unmatched_hour :
    (a month day : Bool)
    → (if not a || not false then false else if not month then false else day) ≡ false
unmatched_hour true month day = refl
unmatched_hour false month day = refl

matched_day :
    (month day : Bool) → not month || not day ≡ false → (if not month then false else day) ≡ true
matched_day true true h = refl
matched_day true false h = cc
matched_day false day h = cc

module _ (c : Cron) where
  -- What keeps a minute from matching.
  wrong_day :
      (n day : ℕ)
      → day_of n ≡ day
      → not (month_matches c day) || not (day_matches c day) ≡ true
      → matches c n ≡ false
  unfolding matches
  wrong_day n day same h = rw same (
      unmatched_day (has (minute_of n) c.minute) (has (hour_of n) c.hour) (month_matches c day)
        (day_matches c day) h)

  wrong_hour : (n hour : ℕ) → hour_of n ≡ hour → has hour c.hour ≡ false → matches c n ≡ false
  unfolding matches
  wrong_hour n hour same h =
      rw (same, h)
        (unmatched_hour (has (minute_of n) c.minute) (month_matches c (day_of n))
          (day_matches c (day_of n)))

  wrong_minute : (n : ℕ) → has (minute_of n) c.minute ≡ false → matches c n ≡ false
  unfolding matches
  wrong_minute n h = rw h refl

  right :
      (m : ℕ)
      → not (month_matches c (day_of m)) || not (day_matches c (day_of m)) ≡ false
      → has (hour_of m) c.hour ≡ true
      → has (minute_of m) c.minute ≡ true
      → matches c m ≡ true
  unfolding matches
  right m day hour minute =
      rw (hour, minute) (matched_day (month_matches c (day_of m)) (day_matches c (day_of m)) day)

  -- Going on at a later minute, if nothing before it matches.
  jump :
      (last m t : ℕ)
      → m < t
      → ((i : ℕ) → i < t - m → matches c (m + i) ≡ false)
      → first_match c (last + 1 - m) m ≡ first_match c (last + 1 - t) t
  jump last m t ahead h =
      first_match-skip c (t - m) (last + 1 - m) m h ∙ same_search c (omega arith) (omega arith)

  -- One round of the loop, on each of its branches.
  module _ (limit fuel m : ℕ) where
    round_over : leb (m * minute_length) limit ≡ false → search c limit (suc fuel) m ≡ none
    unfolding search
    round_over e = rw (search, e) refl

    module _ (e : leb (m * minute_length) limit ≡ true) where
      round_day :
          not (month_matches c (day_of m)) || not (day_matches c (day_of m)) ≡ true
          → search c limit (suc fuel) m ≡ search c limit fuel (tomorrow m)
      unfolding search
      round_day day = rw (search, e, day) refl

      round_hour :
          not (month_matches c (day_of m)) || not (day_matches c (day_of m)) ≡ false
          → has (hour_of m) c.hour ≡ false
          → search c limit (suc fuel) m ≡ search c limit fuel (next_hour m)
      unfolding search
      round_hour day hour = rw (search, e, day, hour) refl

      round_minute :
          not (month_matches c (day_of m)) || not (day_matches c (day_of m)) ≡ false
          → has (hour_of m) c.hour ≡ true
          → has (minute_of m) c.minute ≡ false
          → search c limit (suc fuel) m ≡ search c limit fuel (m + 1)
      unfolding search
      round_minute day hour minute = rw (search, e, day, hour, minute) refl

      round_found :
          not (month_matches c (day_of m)) || not (day_matches c (day_of m)) ≡ false
          → has (hour_of m) c.hour ≡ true
          → has (minute_of m) c.minute ≡ true
          → search c limit (suc fuel) m ≡ some m
      unfolding search
      round_found day hour minute = rw (search, e, day, hour, minute) refl

  first_match-here :
      (last m : ℕ) → m ≤ last → matches c m ≡ true → first_match c (last + 1 - m) m ≡ some m
  first_match-here last m inside e =
      same_search c {l = suc (last - m)} (omega arith) refl ∙ hit (last - m)
    where
      hit : (k : ℕ) → first_match c (suc k) m ≡ some m
      hit k = rw e refl

  only_here :
      (m : ℕ)
      → has (minute_of m) c.minute ≡ false
      → (i : ℕ) → i < m + 1 - m
      → matches c (m + i) ≡ false
  only_here m minute i h = let same : m + i ≡ m = omega arith in rw same (wrong_minute m minute)

  search-first_match :
      (limit fuel m : ℕ)
      → limit / minute_length + 1 - m < fuel
      → search c limit fuel m ≡ first_match c (limit / minute_length + 1 - m) m
  search-first_match limit zero m enough = absurd (omega arith)
  search-first_match limit (suc fuel) m enough = elim (Bool-cases (leb (m * minute_length) limit)) [
    | inr e ↦
        let over = beyond_limit limit m e in
        round_over limit fuel m e ∙ same_search c {k = 0} {n = m} (omega arith) refl
    | inl e ↦
        let inside = within_limit limit m e in
        elim (Bool-cases (not (month_matches c (day_of m)) || not (day_matches c (day_of m)))) [
          | inl day ↦
              round_day limit fuel m e day
              ∙ search-first_match limit fuel (tomorrow m) (omega (arith, later_day m))
              ∙ sym (
                  jump (limit / minute_length) m (tomorrow m) (later_day m)
                    (λ i h. wrong_day (m + i) (day_of m) (same_day m i h) day))
          | inr day ↦ elim (Bool-cases (has (hour_of m) c.hour)) [
            | inr hour ↦
                round_hour limit fuel m e day hour
                ∙ search-first_match limit fuel (next_hour m) (omega (arith, later_hour m))
                ∙ sym (
                    jump (limit / minute_length) m (next_hour m) (later_hour m)
                      (λ i h. wrong_hour (m + i) (hour_of m) (same_hour m i h) hour))
            | inl hour ↦ elim (Bool-cases (has (minute_of m) c.minute)) [
              | inr minute ↦
                  round_minute limit fuel m e day hour minute
                  ∙ search-first_match limit fuel (m + 1) (omega arith)
                  ∙ sym (jump (limit / minute_length) m (m + 1) (omega arith) (only_here m minute))
              | inl minute ↦
                  round_found limit fuel m e day hour minute
                  ∙ sym
                      (first_match-here (limit / minute_length) m inside (right m day hour minute))
            ]
          ]
        ]
  ]

  search-counted :
      (limit fuel m count : ℕ)
      → limit / minute_length + 1 - m ≡ count
      → count < fuel
      → search c limit fuel m ≡ first_match c count m
  search-counted limit fuel m count same enough =
      subst (λ k. search c limit fuel m ≡ first_match c k m) same
        (search-first_match limit fuel m (omega arith))

-- The search skips the rest of a day whose date does not match, and the rest of an hour, and is still the
-- search that looks at every minute: what it finds, for any expression and any moment, is the first
-- minute after the moment that matches, among the minutes of the next 1464 days; and it fails exactly if
-- none of these matches.
pub next_after-first_match :
    (c : Cron) (moment : ℕ)
    → next_after c moment ≡ first_match c (366 * 4 * 1440) (moment / minute_length + 1)
unfolding next_after
next_after-first_match c moment =
    search-counted c (moment + horizon) enough_fuel (moment / minute_length + 1) (366 * 4 * 1440)
      (omega arith) (omega arith)
