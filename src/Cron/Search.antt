-- ===== src/Cron/Search.antt =====
-- `Cron.matches` and `Cron.next_after` of painfree/cron.py. A minute is counted from the epoch.
pub mod Every
use painfree_ebics_middlewar.Prelude.{
  ℕ, zero, suc, ◌+◌, ◌*◌, ◌/◌, ◌%◌, Bool, true, false, not, ◌&&◌, ◌||◌, leb, Option, none, some,
  if◌then◌else◌,
}
use painfree_ebics_middlewar.Cron.Calendar.{cron_weekday, month_day}
use painfree_ebics_middlewar.Cron.Expressions.{Cron, has}

-- A minute in microseconds, and what a minute shows.
abbrev pub minute_length : ℕ
minute_length = 60000000

abbrev pub day_of : (m : ℕ) → ℕ
day_of m = m / 1440

abbrev pub hour_of : (m : ℕ) → ℕ
hour_of m = m / 60 % 24

abbrev pub minute_of : (m : ℕ) → ℕ
minute_of m = m % 60

-- `_day_matches`.
unfoldable pub day_matches : Cron → (day : ℕ) → Bool
day_matches c day =
    let by_day = has (month_day day).1 c.day in
    let by_weekday = has (cron_weekday day) c.weekday in
    if c.day_restricted && c.weekday_restricted
    then by_day || by_weekday
    else if c.day_restricted
    then by_day
    else if c.weekday_restricted
    then by_weekday
    else true

abbrev pub month_matches : Cron → (day : ℕ) → Bool
month_matches c day = has (month_day day).0 c.month

-- `matches`.
unfoldable pub matches : Cron → (m : ℕ) → Bool
matches c m =
    if not (has (minute_of m) c.minute) || not (has (hour_of m) c.hour)
    then false
    else if not (month_matches c (day_of m))
    then false
    else day_matches c (day_of m)

-- `_HORIZON_DAYS`, in microseconds.
abbrev pub horizon : ℕ
horizon = 366 * 4 * 1440 * minute_length

abbrev pub tomorrow : (m : ℕ) → ℕ
tomorrow m = (day_of m + 1) * 1440

abbrev pub next_hour : (m : ℕ) → ℕ
next_hour m = (m / 60 + 1) * 60

-- The loop of `next_after`.
unfoldable pub search : Cron → (limit : ℕ) → (fuel : ℕ) → (candidate : ℕ) → Option ℕ
search c limit zero candidate = none
search c limit (suc fuel) candidate = elim (leb (candidate * minute_length) limit) [
  | false ↦ none
  | true ↦
      elim (not (month_matches c (day_of candidate)) || not (day_matches c (day_of candidate))) [
        | true ↦ search c limit fuel (tomorrow candidate)
        | false ↦ elim (has (hour_of candidate) c.hour) [
          | false ↦ search c limit fuel (next_hour candidate)
          | true ↦ elim (has (minute_of candidate) c.minute) [
            | false ↦ search c limit fuel (candidate + 1)
            | true ↦ some candidate
          ]
        ]
      ]
]

-- The rounds of the loop are fewer than the minutes up to the limit.
abbrev pub enough_fuel : ℕ
enough_fuel = 366 * 4 * 1440 + 1

-- `next_after` of an instant, as a minute; `none` is the `CronError`.
unfoldable pub next_after : Cron → (moment : ℕ) → Option ℕ
next_after c moment = search c (moment + horizon) enough_fuel (moment / minute_length + 1)
