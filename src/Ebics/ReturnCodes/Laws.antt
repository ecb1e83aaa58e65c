-- ===== src/Ebics/ReturnCodes/Laws.antt =====
-- What `lookup` of painfree/ebics3/returncodes.py answers, for a code of the table and for any other.
use Prim.Native.Nat.{ℕ}
use mathlib.Core.List.{Memᴰ, reverse, reverse-append}
use painfree_ebics_middlewar.Prelude.{
  Text, text_eq, text_eq→eq, text_eq_refl, strip, lstrip, is_space, Bool, true, false, not, ◌&&◌,
  all, List, [], ◌∷◌, ◌++◌, none, some, ◌≡◌, refl, arith,
}
use painfree_ebics_middlewar.Ebics.ReturnCodes.{ReturnCode, table, find_code, lookup}

-- No row carries the code of an earlier one.
abbrev is_fresh : Text → List ReturnCode → Bool
is_fresh code [] = true
is_fresh code (r ∷ rows) = not (text_eq r.code code) && is_fresh code rows

abbrev has_distinct_codes : List ReturnCode → Bool
has_distinct_codes [] = true
has_distinct_codes (r ∷ rows) = is_fresh r.code rows && has_distinct_codes rows

find_code-fresh :
    (rows : List ReturnCode) (code : Text) → is_fresh code rows ≡ true → find_code rows code ≡ none
unfolding find_code
find_code-fresh [] code h = refl
find_code-fresh (r ∷ rows) code h = ground (arith, find_code-fresh rows code)

find_code_self :
    (rows : List ReturnCode) (r : ReturnCode)
    → has_distinct_codes rows ≡ true
    → Memᴰ r rows
    → find_code rows r.code ≡ some r
unfolding find_code
find_code_self [] r h m = elim m [ ]
find_code_self (x ∷ rows) r h (Memᴰ.head e) =
    rw e (ground (arith, find_code-fresh rows x.code, text_eq_refl x.code))
find_code_self (x ∷ rows) r h (Memᴰ.tail m) = ground (arith, find_code_self rows r (ground arith) m)

table_distinct : has_distinct_codes table ≡ true
unfolding table text_eq
table_distinct = refl

-- Every code of the table is its own stripped form, begins with no white space, and is not empty.
abbrev is_plain : Text → Bool
is_plain [] = false
is_plain (c ∷ s) = not (is_space c) && text_eq (strip (c ∷ s)) (c ∷ s)

table_plain : all (λ r. is_plain r.code) table ≡ true
unfolding table text_eq strip lstrip is_space
table_plain = refl

all-mem :
    (p : ReturnCode → Bool) (rows : List ReturnCode) (r : ReturnCode)
    → all p rows ≡ true
    → Memᴰ r rows
    → p r ≡ true
all-mem p [] r h m = elim m [ ]
all-mem p (x ∷ rows) r h (Memᴰ.head e) = rw e (ground arith)
all-mem p (x ∷ rows) r h (Memᴰ.tail m) = all-mem p rows r (ground arith) m

lstrip-append : (before s : Text) → all is_space before ≡ true → lstrip (before ++ s) ≡ lstrip s
unfolding lstrip
lstrip-append [] s h = refl
lstrip-append (c ∷ before) s h = ground (arith, lstrip-append before s)

all-append :
    (p : ℕ → Bool) (xs ys : Text) → all p xs ≡ true → all p ys ≡ true → all p (xs ++ ys) ≡ true
all-append p [] ys h k = k
all-append p (x ∷ xs) ys h k = ground (arith, all-append p xs ys)

all-reverse : (p : ℕ → Bool) (xs : Text) → all p xs ≡ true → all p (reverse xs) ≡ true
all-reverse p [] h = refl
all-reverse p (x ∷ xs) h =
    rw (reverse-append (x ∷ []) xs)
      (all-append p (reverse xs) (x ∷ []) (all-reverse p xs (ground arith)) (ground arith))

lstrip-solid : (c : ℕ) (s : Text) → is_space c ≡ false → lstrip (c ∷ s) ≡ c ∷ s
unfolding lstrip
lstrip-solid c s h = rw h

-- White space around a text that begins with none is stripped away.
strip-padded :
    (before after : Text) (c : ℕ) (s : Text)
    → all is_space before ≡ true
    → all is_space after ≡ true
    → is_space c ≡ false
    → strip (before ++ (c ∷ (s ++ after))) ≡ strip (c ∷ s)
unfolding strip
strip-padded before after c s b a h = rw (
  lstrip-append before (c ∷ (s ++ after)) b,
  lstrip-solid c (s ++ after) h,
  lstrip-solid c s h,
  reverse-append (c ∷ s) after,
  lstrip-append (reverse after) (reverse (c ∷ s)) (all-reverse is_space after a),
)

lookup-plain :
    (before after code : Text) (r : ReturnCode)
    → all is_space before ≡ true
    → all is_space after ≡ true
    → is_plain code ≡ true
    → find_code table code ≡ some r
    → lookup (some (before ++ (code ++ after))) ≡ some r
unfolding lookup
lookup-plain before after [] r b a h found = cc
lookup-plain before after (c ∷ s) r b a h found =
    let solid : is_space c ≡ false = ground arith in
    rw (
      strip-padded before after c s b a solid,
      text_eq→eq (strip (c ∷ s)) (c ∷ s) (ground arith),
      found,
    )

-- `lookup` finds every row of the table by its own code, with any white space around it.
pub lookup-table :
    (before after : Text) (r : ReturnCode)
    → Memᴰ r table
    → all is_space before ≡ true
    → all is_space after ≡ true
    → lookup (some (before ++ (r.code ++ after))) ≡ some r
lookup-table before after r m b a =
    lookup-plain before after r.code r b a (all-mem _ table r table_plain m)
      (find_code_self table r table_distinct m)
