-- ===== src/Examples/CronExpressions.antt =====
-- Cron expressions at concrete inputs: painfree/cron.py.
use painfree_ebics_middlewar.Prelude.{
  ◌+◌, ◌*◌, ◌/◌, text, text_eq, is_space, lstrip, strip, int, int_digits, true, some, [], ◌∷◌, ◌≡◌,
  refl,
}
use painfree_ebics_middlewar.Orders.Queue.{collapse}
use painfree_ebics_middlewar.Cron.Calendar.{cron_weekday, year_day, month_day}
use painfree_ebics_middlewar.Cron.Expressions.{
  ok, refused, Cron, CronError, split_at, partition_at, number, step_of, span_of, item, items,
  field, parse,
}
use painfree_ebics_middlewar.Cron.Parsed.{IsCron, parse-IsCron}
use painfree_ebics_middlewar.Cron.Search.{minute_length, day_matches, search, next_after}
use painfree_ebics_middlewar.Cron.Search.Every.{first_match, next_after-first_match}

-- Every half hour of the morning, on the first of the month and on Sundays.
abbrev mornings : Cron
mornings = record {
  minute = 0 ∷ 30 ∷ [];
  hour = 8 ∷ 9 ∷ 10 ∷ 11 ∷ [];
  day = 1 ∷ [];
  month = 1 ∷ 2 ∷ 3 ∷ 4 ∷ 5 ∷ 6 ∷ 7 ∷ 8 ∷ 9 ∷ 10 ∷ 11 ∷ 12 ∷ [];
  weekday = 0 ∷ [];
  expression = text "*/30 8-11 1 * 7";
  day_restricted = true;
  weekday_restricted = true;
}

mornings-parse : parse (text " */30  8-11 1 * 7 ") ≡ ok mornings
unfolding parse collapse is_space split_at partition_at number step_of span_of item items field int
    int_digits strip lstrip text_eq
mornings-parse = refl

backwards_range : parse (text "0 11-8 * * *") ≡ refused (CronError.runs_backwards 1)
unfolding parse collapse is_space split_at partition_at number step_of span_of item items field int
    int_digits strip lstrip text_eq
backwards_range = refl

named_day : parse (text "0 8 * * MON") ≡ refused (CronError.field_uses_name 4)
unfolding parse collapse is_space split_at partition_at number step_of span_of item items field int
    int_digits strip lstrip text_eq
named_day = refl

parse-IsCron_example : IsCron mornings
parse-IsCron_example = parse-IsCron (text " */30  8-11 1 * 7 ") mornings mornings-parse

-- The last day of the year 2000, and the day after it; 2024-02-29, a Thursday.
leap_days :
    (month_day 11322 ≡ (12, 31))
    × (month_day 11323 ≡ (1, 1))
    × (month_day 19782 ≡ (2, 29))
    × (cron_weekday 19782 ≡ 4)
unfolding month_day year_day cron_weekday
leap_days = (refl, refl, refl, refl)

-- On Thursday 2024-02-29 at 10:15, the next one is on Friday, the first of March, at 08:00.
next_morning :
    next_after mornings ((19782 * 1440 + 615) * minute_length + 7) ≡ some (19783 * 1440 + 480)
unfolding next_after search day_matches month_day year_day cron_weekday
next_morning = refl

next_after-first_match_example :
    next_after mornings 1709201700000000
    ≡ first_match mornings (366 * 4 * 1440) (1709201700000000 / minute_length + 1)
next_after-first_match_example = next_after-first_match mornings 1709201700000000
