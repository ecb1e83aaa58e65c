-- ===== src/Cron/Permits.antt =====
-- What `parse` of painfree/cron.py lets through.
use native.Mathlib.Nat.{mod-add-div, mul-suc}
use painfree_ebics_middlewar.Prelude.{
  ℕ, zero, suc, ◌+◌, ◌-◌, ◌*◌, ◌/◌, ◌≤◌, ◌<◌, ◌==◌, leb→le, Text, text, text_eq, is_empty, Bool,
  true, false, ◌&&◌, ◌||◌, any, Bool-cases, leb, ltb, ℤ, pos, negsuc, int, Option, none, some, List,
  [], ◌∷◌, ◌++◌, All, All-append, map-All, ◌≡◌, refl, subst, sym, ◌⊎◌, inl, inr, if◌then◌else◌,
  arith,
}
use painfree_ebics_middlewar.Cron.Expressions.{
  Read, ok, refused, after, CronError, has, low, high, partition_at, lstrip_dash, checked_number,
  number, checked_step, step_of, range_by, range_of, Span, span, span_of, item, items,
}

abbrev pub Within : (least most : ℕ) → ℕ → Type 0
Within least most v = (least ≤ v) × (v ≤ most)

-- Every value in the bounds is permitted.
abbrev pub IsFull : (least most : ℕ) → List ℕ → Type 0
IsFull least most values = (v : ℕ) → least ≤ v → v ≤ most → has v values ≡ true

-- What a call that returned had to have returned first.
pub after-ok {ℓ κ} :
    {A : Type ℓ} {B : Type κ} (r : Read A) (f : A → Read B) {b : B}
    → after r f ≡ ok b
    → (a : A) × (r ≡ ok a) × (f a ≡ ok b)
after-ok (ok a) f h = (a, refl, h)
after-ok (refused e) f h = cc

pub ok_injective {ℓ} : {A : Type ℓ} {a b : A} → Read.ok a ≡ ok b → a ≡ b
ok_injective e = cc

range_by-Within :
    (k start step stop : ℕ)
    → start + step * k ≤ stop
    → All (Within start stop) (range_by (suc k) start step)
range_by-Within zero start step stop h = ((omega arith, omega arith), tt)
range_by-Within (suc k) start step stop h = (
  (omega arith, omega (arith, mul-suc step k)),
  map-All (λ v w. (omega (arith, w.0), w.1)) (range_by (suc k) (start + step) step)
      (range_by-Within k (start + step) step stop (omega (arith, mul-suc step k))),
)

range_of-Within :
    (start stop step : ℕ) → start ≤ stop → All (Within start stop) (range_of start stop step)
range_of-Within start stop step h =
    subst (λ n. All (Within start stop) (range_by n start step)) (one_more ((stop - start) / step))
      (range_by-Within ((stop - start) / step) start step stop
        (omega (arith, mod-add-div (stop - start) step)))
  where
    one_more : (n : ℕ) → suc n ≡ n + 1
    one_more n = omega arith

range_by-full :
    (count start v : ℕ) → start ≤ v → v < start + count → has v (range_by count start 1) ≡ true
range_by-full zero start v h k = absurd (omega arith)
range_by-full (suc count) start v h k = elim (Bool-cases (start == v)) [
  | inl e ↦ rw e refl
  | inr e ↦ rw e (range_by-full count (start + 1) v (ground arith) (omega arith))
]

low_le_high : (index : ℕ) → low index ≤ high index
low_le_high index = ground arith

and_left : (a b : Bool) → a && b ≡ true → a ≡ true
and_left true b h = refl
and_left false b h = cc

and_right : (a b : Bool) → a && b ≡ true → b ≡ true
and_right true b h = h
and_right false b h = cc

number-Within :
    (t : Text) (index : ℕ) {v : ℕ} → number t index ≡ ok v → Within (low index) (high index) v
unfolding number
number-Within t index {v} h = checked (int t) h
  where
    both :
        (n : ℕ) → leb (low index) n && leb n (high index) ≡ true → Within (low index) (high index) n
    both n e = (
      leb→le (low index) n (and_left (leb (low index) n) (leb n (high index)) e),
      leb→le n (high index) (and_right (leb (low index) n) (leb n (high index)) e),
    )

    checked : (n : Option ℤ) → checked_number index n ≡ ok v → Within (low index) (high index) v
    checked none k = cc
    checked (some (negsuc n)) k = cc
    checked (some (pos n)) k = elim (Bool-cases (leb (low index) n && leb n (high index))) [
      | inr e ↦ let no : refused (CronError.out_of_range index) ≡ ok v = rw e at k in cc
      | inl e ↦
          let same : ok n ≡ ok v = rw e at k in
          subst (Within (low index) (high index)) (ok_injective same) (both n e)
    ]

step_of-pos : (t : Text) (index : ℕ) {step : ℕ} → step_of t index ≡ ok step → 1 ≤ step
unfolding step_of
step_of-pos t index {step} h = elim (Bool-cases (is_empty t)) [
  | inl e ↦
      let same : ok 1 ≡ ok step = rw e at h in subst (λ n. 1 ≤ n) (ok_injective same) (omega arith)
  | inr e ↦ checked (int t) (rw e at h)
]
  where
    checked : (n : Option ℤ) → checked_step index n ≡ ok step → 1 ≤ step
    checked none k = cc
    checked (some (negsuc n)) k = cc
    checked (some (pos n)) k = elim (Bool-cases (ltb n 1)) [
      | inl e ↦ let no : refused (CronError.step_too_small index) ≡ ok step = rw e at k in cc
      | inr e ↦
          let same : ok n ≡ ok step = rw e at k in
          subst (λ m. 1 ≤ m) (ok_injective same) (ground arith)
    ]

-- The span of an item lies in the bounds, and is all of them unless it restricts.
abbrev SpanRight : (index : ℕ) → Span → Type 0
SpanRight index s =
    (low index ≤ s.start)
    × (s.start ≤ s.stop)
    × (s.stop ≤ high index)
    × (s.restricts ≡ false → (s.start ≡ low index) × (s.stop ≡ high index))

span_of-SpanRight :
    (body : Text) (index : ℕ) {s : Span} → span_of body index ≡ ok s → SpanRight index s
unfolding span_of
span_of-SpanRight body index {s} h = elim (Bool-cases (text_eq body (text "*"))) [
  | inl e ↦
      let same : ok (span (low index) (high index) false) ≡ ok s = rw e at h in
      subst (SpanRight index) (ok_injective same)
        (omega arith, low_le_high index, omega arith, λ _. (refl, refl))
  | inr e ↦ elim (Bool-cases (any (λ c. c == b'-') (lstrip_dash body))) [
    | inl d ↦ range (rw (e, d) at h)
    | inr d ↦
        let (v, read, last) = after-ok (number body index) _ (rw (e, d) at h) in
        let w = number-Within body index read in
        subst (SpanRight index) (ok_injective last)
          (w.0, omega arith, w.1, λ k. absurd (true_false k))
  ]
]
  where
    true_false : true ≡ false → ⊥
    true_false k = cc

    ordered :
        (start stop : ℕ)
        → Within (low index) (high index) start
        → Within (low index) (high index) stop
        → (if ltb stop start
            then refused (CronError.runs_backwards index)
            else ok (span start stop true))
          ≡ ok s
        → SpanRight index s
    ordered start stop a b k = elim (Bool-cases (ltb stop start)) [
      | inl e ↦ let no : refused (CronError.runs_backwards index) ≡ ok s = rw e at k in cc
      | inr e ↦
          let same : ok (span start stop true) ≡ ok s = rw e at k in
          subst (SpanRight index) (ok_injective same)
            (a.0, ground arith, b.1, λ k. absurd (true_false k))
    ]

    range :
        after (number (partition_at b'-' body).0 index) (λ start.
          after (number (partition_at b'-' body).1 index) (λ stop.
            if ltb stop start
            then refused (CronError.runs_backwards index)
            else ok (span start stop true)))
          ≡ ok s
        → SpanRight index s
    range k =
        let (start, read_start, k1) = after-ok (number (partition_at b'-' body).0 index) _ k in
        let (stop, read_stop, k2) = after-ok (number (partition_at b'-' body).1 index) _ k1 in
        ordered start stop (number-Within _ index read_start) (number-Within _ index read_stop) k2

-- The values of an item.
abbrev pub Permits : (index : ℕ) → List ℕ × Bool → Type 0
Permits index (values, restricts) =
    All (Within (low index) (high index)) values
    × (restricts ≡ false → (values ≡ []) ⊎ IsFull (low index) (high index) values)

or_false : (a b : Bool) → a || b ≡ false → (a ≡ false) × (b ≡ false)
or_false true b h = cc
or_false false b h = (refl, h)

item-Permits : (t : Text) (index : ℕ) {r : List ℕ × Bool} → item t index ≡ ok r → Permits index r
unfolding item
item-Permits t index {r} h =
    let (step, read_step, h1) = after-ok (step_of (partition_at b'/' t).1 index) _ h in
    let (s, read_span, h2) = after-ok (span_of (partition_at b'/' t).0 index) _ h1 in
    subst (Permits index) (ok_injective h2)
      (of_span step s (step_of-pos _ index read_step) (span_of-SpanRight _ index read_span))
  where
    full :
        (step : ℕ) (s : Span)
        → 1 ≤ step
        → (s.restricts ≡ false → (s.start ≡ low index) × (s.stop ≡ high index))
        → (v : ℕ) → low index ≤ v
        → v ≤ high index
        → (ltb 1 step ≡ false) × (s.restricts ≡ false)
        → has v (range_of s.start s.stop step) ≡ true
    full step s some_step whole v above below (few, free) =
        let one : 1 ≡ step = ground arith in
        let (start, stop) = whole free in
        subst (λ n. has v (range_of s.start s.stop n) ≡ true) one
          (range_by-full ((s.stop - s.start) / 1 + 1) s.start v (omega arith) (omega arith))

    of_span :
        (step : ℕ) (s : Span)
        → 1 ≤ step
        → SpanRight index s
        → Permits index (range_of s.start s.stop step, ltb 1 step || s.restricts)
    of_span step s some_step (from, order, to, whole) = (
      map-All (λ v w. (omega (arith, w.0), omega (arith, w.1))) _
          (range_of-Within s.start s.stop step order),
      λ free. inr (λ v above below.
          full step s some_step whole v above below (or_false (ltb 1 step) s.restricts free)),
    )

any-append_left : (v : ℕ) (xs ys : List ℕ) → has v xs ≡ true → has v (xs ++ ys) ≡ true
any-append_left v [] ys h = cc
any-append_left v (x ∷ xs) ys h = elim (Bool-cases (x == v)) [
  | inl e ↦ rw e refl
  | inr e ↦ rw e (any-append_left v xs ys (rw e at h))
]

pub items-Permits :
    (ts : List Text) (index : ℕ) {r : List ℕ × Bool} → items ts index ≡ ok r → Permits index r
unfolding items
items-Permits [] index h = subst (Permits index) (ok_injective h) (tt, λ _. inl refl)
items-Permits (t ∷ ts) index h =
    let (first, read_first, h1) = after-ok (item t index) _ h in
    let (rest, read_rest, h2) = after-ok (items ts index) _ h1 in
    subst (Permits index) (ok_injective h2)
      (both first rest (item-Permits t index read_first) (items-Permits ts index read_rest))
  where
    full :
        (xs ys : List ℕ)
        → (xs ≡ []) ⊎ IsFull (low index) (high index) xs
        → (ys ≡ []) ⊎ IsFull (low index) (high index) ys
        → (xs ++ ys ≡ []) ⊎ IsFull (low index) (high index) (xs ++ ys)
    full xs ys (inl e) h =
        subst (λ zs. (zs ++ ys ≡ []) ⊎ IsFull (low index) (high index) (zs ++ ys)) (sym e) h
    full xs ys (inr f) h = inr (λ v above below. any-append_left v xs ys (f v above below))

    both :
        (first rest : List ℕ × Bool)
        → Permits index first
        → Permits index rest
        → Permits index (first.0 ++ rest.0, first.1 || rest.1)
    both first rest p q = (
      All-append (Within (low index) (high index)) first.0 rest.0 p.0 q.0,
      λ free. let (a, b) = or_false first.1 rest.1 free in full first.0 rest.0 (p.1 a) (q.1 b),
    )
