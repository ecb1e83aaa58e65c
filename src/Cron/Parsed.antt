-- ===== src/Cron/Parsed.antt =====
-- What an expression that `parse` of painfree/cron.py accepts is like.
use painfree_ebics_middlewar.Prelude.{
  ℕ, ◌≤◌, ◌==◌, ==_iff, Text, is_empty, Bool, true, false, ◌||◌, any, Bool-cases, List, [], ◌∷◌,
  All, ◌≡◌, refl, subst, sym, ◌⊎◌, inl, inr, if◌then◌else◌, arith,
}
use painfree_ebics_middlewar.Orders.Queue.{collapse}
use painfree_ebics_middlewar.Cron.Expressions.{
  ok, refused, Cron, CronError, has, low, high, doubled_comma, is_forbidden, is_alpha, split_at,
  items, drop_sevens, one_sunday, permitted, field, parse_fields, parse,
}
use painfree_ebics_middlewar.Cron.Permits.{
  Within, IsFull, Permits, after-ok, ok_injective, items-Permits,
}

drop_sevens-Within : (vs : List ℕ) → All (Within 0 7) vs → All (Within 0 6) (drop_sevens vs)
drop_sevens-Within [] h = tt
drop_sevens-Within (v ∷ vs) h = elim (Bool-cases (v == 7)) [
  | inl e ↦ rw e (drop_sevens-Within vs h.1)
  | inr e ↦ rw e ((omega arith, ground arith), drop_sevens-Within vs h.1)
]

is_seven : (w v : ℕ) → v ≤ 6 → w == 7 ≡ true → w == v ≡ false
is_seven w v below e = ground arith

drop_sevens-has : (v : ℕ) (vs : List ℕ) → v ≤ 6 → has v vs ≡ true → has v (drop_sevens vs) ≡ true
drop_sevens-has v [] below h = cc
drop_sevens-has v (w ∷ vs) below h = elim (Bool-cases (w == 7)) [
  | inl e ↦ rw e (drop_sevens-has v vs below (rw (is_seven w v below e) at h))
  | inr e ↦ elim (Bool-cases (w == v)) [
    | inl same ↦ rw (e, same) refl
    | inr differs ↦ rw (e, differs) (drop_sevens-has v vs below (rw differs at h))
  ]
]

no_sevens : (vs : List ℕ) → All (Within 0 7) vs → has 7 vs ≡ false → All (Within 0 6) vs
no_sevens [] h k = tt
no_sevens (v ∷ vs) h k = elim (Bool-cases (v == 7)) [
  | inl e ↦ let no : true ≡ false = rw e at k in cc
  | inr e ↦ ((omega arith, ground arith), no_sevens vs h.1 (rw e at k))
]

-- A set of values in bounds, with a member; and one that is everything unless the field restricts.
abbrev pub IsSetOf : (least most : ℕ) → List ℕ → Type 0
IsSetOf least most values = ((v : ℕ) × (has v values ≡ true)) × All (Within least most) values

abbrev FieldRight : (least most : ℕ) → List ℕ × Bool → Type 0
FieldRight least most (values, restricts) =
    IsSetOf least most values × (restricts ≡ false → IsFull least most values)

-- The last value of a field, with the second Sunday taken away.
abbrev top : (index : ℕ) → ℕ
top index = if index == 4 then 6 else high index

has_head : (v : ℕ) (vs : List ℕ) → has v (v ∷ vs) ≡ true
has_head v vs = rw ((==_iff v v).1 refl) refl

has_behind : (v w : ℕ) (vs : List ℕ) → has v vs ≡ true → has v (w ∷ vs) ≡ true
has_behind v w vs h = elim (Bool-cases (w == v)) [ inl e ↦ rw e refl | inr e ↦ rw e h ]

cons_not_nil : (v : ℕ) (vs : List ℕ) → v ∷ vs ≡ [] → ⊥
cons_not_nil v vs e = cc

one_sunday-FieldRight :
    (index v : ℕ) (vs : List ℕ) (restricts : Bool)
    → Permits index (v ∷ vs, restricts)
    → FieldRight (low index) (top index) (one_sunday index (v ∷ vs), restricts)
one_sunday-FieldRight index v vs restricts h = elim (Bool-cases (index == 4)) [
  | inl e ↦
      subst
        (λ i.
          Permits i (v ∷ vs, restricts)
          → FieldRight (low i) (top i) (one_sunday i (v ∷ vs), restricts))
        (sym ((==_iff index 4).0 e)) weekday h
  | inr e ↦ rw e (other h)
]
  where
    is_full :
        {least most : ℕ} → (v ∷ vs ≡ []) ⊎ IsFull least most (v ∷ vs) → IsFull least most (v ∷ vs)
    is_full (inl e) = absurd (cons_not_nil v vs e)
    is_full (inr f) = f

    other :
        Permits index (v ∷ vs, restricts) → FieldRight (low index) (high index) (v ∷ vs, restricts)
    other (within, full) = (((v, has_head v vs), within), λ free. is_full (full free))

    weekday : Permits 4 (v ∷ vs, restricts) → FieldRight 0 6 (one_sunday 4 (v ∷ vs), restricts)
    weekday (within, full) = elim (Bool-cases (has 7 (v ∷ vs))) [
      | inl e ↦ rw e (
        (
          (0, has_head 0 (drop_sevens (v ∷ vs))),
          ((omega arith, omega arith), drop_sevens-Within (v ∷ vs) within),
        ),
        λ free w above below.
            has_behind w 0 (drop_sevens (v ∷ vs))
              (drop_sevens-has w (v ∷ vs) below (is_full (full free) w above (omega arith))),
      )
      | inr e ↦ rw e (
        ((v, has_head v vs), no_sevens (v ∷ vs) within e),
        λ free w above below. is_full (full free) w above (omega arith),
      )
    ]

field-FieldRight :
    (t : Text) (index : ℕ) {r : List ℕ × Bool}
    → field t index ≡ ok r
    → FieldRight (low index) (top index) r
unfolding field
field-FieldRight t index {r} h = elim (Bool-cases (is_empty t)) [
  | inl e ↦ let no : refused (CronError.field_empty index) ≡ ok r = rw e at h in cc
  | inr e ↦ elim (Bool-cases (doubled_comma t || any is_forbidden t)) [
    | inl f ↦ let no : refused (CronError.field_forbidden index) ≡ ok r = rw (e, f) at h in cc
    | inr f ↦ elim (Bool-cases (any is_alpha t)) [
      | inl g ↦ let no : refused (CronError.field_uses_name index) ≡ ok r = rw (e, f, g) at h in cc
      | inr g ↦
          let (read, from, last) =
            after-ok (items (split_at b',' t) index) (permitted index) (rw (e, f, g) at h) in
          permits read (items-Permits (split_at b',' t) index from) last
    ]
  ]
]
  where
    permits :
        (read : List ℕ × Bool)
        → Permits index read
        → permitted index read ≡ ok r
        → FieldRight (low index) (top index) r
    permits ([], restricts) p k = cc
    permits (v ∷ vs, restricts) p k =
        subst (FieldRight (low index) (top index)) (ok_injective k)
          (one_sunday-FieldRight index v vs restricts p)

-- Each set has a member and lies in the bounds of its field, the weekdays without the second Sunday; and
-- a day field that is not restricted permits every day.
abbrev pub IsCron : Cron → Type 0
IsCron c =
    IsSetOf 0 59 c.minute
    × IsSetOf 0 23 c.hour
    × IsSetOf 1 31 c.day
    × IsSetOf 1 12 c.month
    × IsSetOf 0 6 c.weekday
    × (c.day_restricted ≡ false → IsFull 1 31 c.day)
    × (c.weekday_restricted ≡ false → IsFull 0 6 c.weekday)

parse_fields-IsCron :
    (t : Text) (fields : List Text) {c : Cron} → parse_fields t fields ≡ ok c → IsCron c
parse_fields-IsCron t [] h = cc
parse_fields-IsCron t (f0 ∷ []) h = cc
parse_fields-IsCron t (f0 ∷ f1 ∷ []) h = cc
parse_fields-IsCron t (f0 ∷ f1 ∷ f2 ∷ []) h = cc
parse_fields-IsCron t (f0 ∷ f1 ∷ f2 ∷ f3 ∷ []) h = cc
parse_fields-IsCron t (f0 ∷ f1 ∷ f2 ∷ f3 ∷ f4 ∷ []) h =
    let (minute, read0, h1) = after-ok (field f0 0) _ h in
    let (hour, read1, h2) = after-ok (field f1 1) _ h1 in
    let (day, read2, h3) = after-ok (field f2 2) _ h2 in
    let (month, read3, h4) = after-ok (field f3 3) _ h3 in
    let (weekday, read4, h5) = after-ok (field f4 4) _ h4 in
    let d = field-FieldRight f2 2 read2 in
    let w = field-FieldRight f4 4 read4 in
    subst IsCron (ok_injective h5) (
      (field-FieldRight f0 0 read0).0,
      (field-FieldRight f1 1 read1).0,
      d.0,
      (field-FieldRight f3 3 read3).0,
      w.0,
      d.1,
      w.1,
    )
parse_fields-IsCron t (f0 ∷ f1 ∷ f2 ∷ f3 ∷ f4 ∷ f5 ∷ fs) h = cc

-- An expression that is accepted has values in every field, all of them in the bounds of the field, and
-- Sunday only as 0; and if its day of the month, or its weekday, is not restricted, this field permits
-- every day, so that leaving it out of the comparison changes nothing.
pub parse-IsCron : (expression : Text) (c : Cron) → parse expression ≡ ok c → IsCron c
unfolding parse
parse-IsCron expression c h = elim (Bool-cases (is_empty (collapse false false expression))) [
  | inl e ↦ let no : refused CronError.no_expression ≡ ok c = rw e at h in cc
  | inr e ↦ parse_fields-IsCron _ _ (rw e at h)
]
