-- ===== src/Cron/Expressions.antt =====
-- `parse` of painfree/cron.py, `_field` and `_number`. Texts are ASCII.
use painfree_ebics_middlewar.Prelude.{
  ℕ, zero, suc, ◌+◌, ◌-◌, ◌/◌, ◌==◌, Text, text, text_eq, is_empty, Bool, true, false, ◌&&◌, ◌||◌,
  leb, ltb, ℤ, pos, negsuc, int, any, Option, none, some, List, [], ◌∷◌, ◌++◌, length,
  if◌then◌else◌,
}
use painfree_ebics_middlewar.Orders.Queue.{collapse}

-- `CronError`, by the sentence that it carries; a field is named by its index.
pub data CronError : Type 0 where
  no_expression : CronError
  wrong_field_count : (fields : ℕ) → CronError
  field_empty field_forbidden field_uses_name : (index : ℕ) → CronError
  not_a_step step_too_small runs_backwards : (index : ℕ) → CronError
  not_a_number out_of_range permits_nothing : (index : ℕ) → CronError

-- A value, or the error that is raised.
pub data Read {ℓ} (A : Type ℓ) : Type ℓ where
  ok : A → Read A
  refused : CronError → Read A

abbrev pub after {ℓ κ} : {A : Type ℓ} {B : Type κ} → Read A → (A → Read B) → Read B
after (ok a) f = f a
after (refused e) f = refused e

-- `Cron`. A `frozenset` is the list of its members.
pub record Cron : Type 0 where
  pub minute : List ℕ
  pub hour : List ℕ
  pub day : List ℕ
  pub month : List ℕ
  pub weekday : List ℕ
  pub expression : Text
  pub day_restricted : Bool
  pub weekday_restricted : Bool

-- `value in set`.
abbrev pub has : ℕ → List ℕ → Bool
has v values = any (λ w. w == v) values

-- `_BOUNDS`.
abbrev pub low : (index : ℕ) → ℕ
low index = if index == 2 || index == 3 then 1 else 0

abbrev pub high : (index : ℕ) → ℕ
high index =
    if index == 0
    then 59
    else if index == 1
    then 23
    else if index == 2
    then 31
    else if index == 3
    then 12
    else 7

-- `str.split` at a character.
unfoldable pub split_at : ℕ → Text → List Text
split_at sep [] = [] ∷ []
split_at sep (c ∷ s) = extend (c == sep) (split_at sep s)
  where
    extend : Bool → List Text → List Text
    extend true parts = [] ∷ parts
    extend false [] = (c ∷ []) ∷ []
    extend false (p ∷ parts) = (c ∷ p) ∷ parts

-- `str.partition`: what is in front of the first separator, and what is behind it.
unfoldable pub partition_at : ℕ → Text → Text × Text
partition_at sep [] = ([], [])
partition_at sep (c ∷ s) =
    let (before, behind) = partition_at sep s in if c == sep then ([], s) else (c ∷ before, behind)

-- `lstrip("-")`.
abbrev pub lstrip_dash : Text → Text
lstrip_dash [] = []
lstrip_dash (c ∷ s) = let rest = lstrip_dash s in if c == b'-' then rest else c ∷ s

abbrev upper : ℕ → ℕ
upper c = if leb b'a' c && leb c b'z' then c - 32 else c

abbrev pub is_alpha : ℕ → Bool
is_alpha c = leb b'A' (upper c) && leb (upper c) b'Z'

abbrev pub doubled_comma : Text → Bool
doubled_comma [] = false
doubled_comma (c ∷ []) = false
doubled_comma (c ∷ d ∷ s) = (c == b',' && d == b',') || doubled_comma (d ∷ s)

abbrev pub is_forbidden : ℕ → Bool
is_forbidden c = c == b'?' || upper c == b'L' || c == b'#' || upper c == b'W' || c == b'@'

-- `_number`.
abbrev pub checked_number : (index : ℕ) → Option ℤ → Read ℕ
checked_number index none = refused (not_a_number index)
checked_number index (some (negsuc n)) = refused (out_of_range index)
checked_number index (some (pos n)) =
    if leb (low index) n && leb n (high index) then ok n else refused (out_of_range index)

unfoldable pub number : Text → (index : ℕ) → Read ℕ
number t index = checked_number index (int t)

-- `step`.
abbrev pub checked_step : (index : ℕ) → Option ℤ → Read ℕ
checked_step index none = refused (not_a_step index)
checked_step index (some (negsuc n)) = refused (step_too_small index)
checked_step index (some (pos n)) = if ltb n 1 then refused (step_too_small index) else ok n

unfoldable pub step_of : Text → (index : ℕ) → Read ℕ
step_of t index = if is_empty t then ok 1 else checked_step index (int t)

-- `range(start, stop + 1, step)`, which has `(stop - start) // step + 1` members.
abbrev pub range_by : (count start step : ℕ) → List ℕ
range_by zero start step = []
range_by (suc count) start step = start ∷ range_by count (start + step) step

abbrev pub range_of : (start stop step : ℕ) → List ℕ
range_of start stop step = range_by ((stop - start) / step + 1) start step

-- The start and the stop of an item, and whether it restricts.
pub record Span : Type 0 where
  pub start : ℕ
  pub stop : ℕ
  pub restricts : Bool

abbrev pub span : (start stop : ℕ) → Bool → Span
span start stop restricts = record { start = start; stop = stop; restricts = restricts }

unfoldable pub span_of : Text → (index : ℕ) → Read Span
span_of body index =
    if text_eq body (text "*")
    then ok (span (low index) (high index) false)
    else if any (λ c. c == b'-') (lstrip_dash body)
    then after (number (partition_at b'-' body).0 index) (λ start.
      after (number (partition_at b'-' body).1 index) (λ stop.
        if ltb stop start then refused (runs_backwards index) else ok (span start stop true)))
    else after (number body index) (λ value. ok (span value value true))

-- What an item adds: its values, and whether it restricts.
unfoldable pub item : Text → (index : ℕ) → Read (List ℕ × Bool)
item t index = after (step_of (partition_at b'/' t).1 index) (λ step.
    after (span_of (partition_at b'/' t).0 index)
      (λ s. ok (range_of s.start s.stop step, ltb 1 step || s.restricts)))

unfoldable pub items : List Text → (index : ℕ) → Read (List ℕ × Bool)
items [] index = ok ([], false)
items (t ∷ ts) index =
    after (item t index)
      (λ first. after (items ts index) (λ rest. ok (first.0 ++ rest.0, first.1 || rest.1)))

abbrev pub drop_sevens : List ℕ → List ℕ
drop_sevens [] = []
drop_sevens (v ∷ vs) = let rest = drop_sevens vs in if v == 7 then rest else v ∷ rest

-- Sunday is written either way and means one day.
abbrev pub one_sunday : (index : ℕ) → List ℕ → List ℕ
one_sunday index values = if index == 4 && has 7 values then 0 ∷ drop_sevens values else values

abbrev pub permitted : (index : ℕ) → List ℕ × Bool → Read (List ℕ × Bool)
permitted index ([], restricts) = refused (permits_nothing index)
permitted index (v ∷ vs, restricts) = ok (one_sunday index (v ∷ vs), restricts)

-- `_field`.
unfoldable pub field : Text → (index : ℕ) → Read (List ℕ × Bool)
field t index =
    if is_empty t
    then refused (field_empty index)
    else if doubled_comma t || any is_forbidden t
    then refused (field_forbidden index)
    else if any is_alpha t
    then refused (field_uses_name index)
    else after (items (split_at b',' t) index) (permitted index)

abbrev pub parse_fields : Text → List Text → Read Cron
parse_fields t (a ∷ b ∷ c ∷ d ∷ e ∷ []) = after (field a 0) (λ minute. after (field b 1) (λ hour.
    after (field c 2) (λ day. after (field d 3) (λ month. after (field e 4) (λ weekday. ok (record {
      minute = minute.0;
      hour = hour.0;
      day = day.0;
      month = month.0;
      weekday = weekday.0;
      expression = t;
      day_restricted = day.1;
      weekday_restricted = weekday.1;
    }))))))
parse_fields t fields = refused (wrong_field_count (length fields))

-- `parse`; the text is what is left of the expression after runs of white space were made one blank.
unfoldable pub parse : Text → Read Cron
unfolding collapse
parse expression =
    let t = collapse false false expression in
    if is_empty t then refused no_expression else parse_fields t (split_at b' ' t)
