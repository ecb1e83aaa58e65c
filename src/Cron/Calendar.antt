-- ===== src/Cron/Calendar.antt =====
-- Python's proleptic calendar, as far as a `datetime` in UTC shows it: the month, the day and the weekday
-- of a day, which is counted from the epoch.
use painfree_ebics_middlewar.Prelude.{
  ℕ, ◌+◌, ◌-◌, ◌/◌, ◌%◌, Bool, ◌&&◌, ◌||◌, not, ◌==◌, ltb, List, [], ◌∷◌, if◌then◌else◌,
}

-- `toordinal`: 1 is the first day of the year 1.
abbrev pub ordinal : (day : ℕ) → ℕ
ordinal day = day + 719163

-- `isoweekday() % 7`: the first day of the year 1 was a Monday, which is 1; Sunday is 0.
unfoldable pub cron_weekday : (day : ℕ) → ℕ
cron_weekday day = ordinal day % 7

-- The parts of a day number: 400 years, centuries, four years and years, and the day of the year. The last
-- day of a leap year stands in a fifth year, or a fifth century, of its own.
pub record YearDay : Type 0 where
  pub century : ℕ
  pub four : ℕ
  pub one : ℕ
  pub day : ℕ

unfoldable pub year_day : (day : ℕ) → YearDay
year_day day =
    let in_400 = (ordinal day - 1) % 146097 in
    let in_100 = in_400 % 36524 in
    let in_4 = in_100 % 1461 in
    record { century = in_400 / 36524; four = in_100 / 1461; one = in_4 / 365; day = in_4 % 365 }

abbrev is_last_of_leap : YearDay → Bool
is_last_of_leap y = y.one == 4 || y.century == 4

abbrev is_leap : YearDay → Bool
is_leap y = y.one == 3 && (not (y.four == 24) || y.century == 3)

abbrev month_lengths : (leap : Bool) → List ℕ
month_lengths leap =
    31 ∷ (if leap then 29 else 28) ∷ 31 ∷ 30 ∷ 31 ∷ 30 ∷ 31 ∷ 31 ∷ 30 ∷ 31 ∷ 30 ∷ 31 ∷ []

-- The month and the day of the month, from the number of a day in what is left of the year.
abbrev month_day_in : (month : ℕ) → List ℕ → ℕ → ℕ × ℕ
month_day_in month [] n = (month, n + 1)
month_day_in month (l ∷ ls) n =
    let later = month_day_in (month + 1) ls (n - l) in if ltb n l then (month, n + 1) else later

abbrev month_day_of : YearDay → ℕ × ℕ
month_day_of y =
    if is_last_of_leap y then (12, 31) else month_day_in 1 (month_lengths (is_leap y)) y.day

unfoldable pub month_day : (day : ℕ) → ℕ × ℕ
unfolding year_day
month_day day = month_day_of (year_day day)
