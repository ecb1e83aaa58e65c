-- ===== src/Sps/Detection.antt =====
-- What the check digit of a QR reference detects: `mod10_recursive` of painfree/sps.py.
use painfree_ebics_middlewar.Prelude.{
  ℕ, zero, suc, ◌-◌, ◌<◌, ◌==◌, ==_iff, ltb, ltb→lt, Text, is_digit, Bool, true, false, ◌&&◌,
  Bool-cases, All, List, [], ◌∷◌, ◌++◌, subst, if◌then◌else◌, ◌≡◌, ◌≢◌, refl, sym, ap, ◌∙◌, inl,
  inr, arith,
}
use painfree_ebics_middlewar.Sps.CheckDigits.{
  mod10r, entry, row, carry_after, final_carry, mod10_recursive,
}

-- A test of every number below a bound.
abbrev below : ℕ → (ℕ → Bool) → Bool
below zero p = true
below (suc n) p = p n && below n p

conjuncts : (a b : Bool) → (a && b) ≡ true → (a ≡ true) × (b ≡ true)
conjuncts true b h = (refl, h)
conjuncts false b h = cc

below_holds : (n : ℕ) (p : ℕ → Bool) (i : ℕ) → below n p ≡ true → i < n → p i ≡ true
below_holds zero p i h small = absurd (omega arith)
below_holds (suc n) p i h small = elim (Bool-cases (i == n)) [
  | inl e ↦ subst (λ x. p x ≡ true) (sym ((==_iff i n).0 e)) (conjuncts (p n) (below n p) h).0
  | inr e ↦ below_holds n p i (ground arith) (ground arith)
]

-- Where a number stands in a row.
abbrev position : List ℕ → ℕ → ℕ
position [] v = 0
position (x ∷ xs) v = let later = position xs v in if x == v then 0 else suc later

abbrev invertible : ℕ → ℕ → Bool
invertible c d =
    (position (row mod10r c) (entry (row mod10r c) d) == d)
    && (entry (row mod10r c) d == entry (row mod10r d) c)
    && ltb (entry (row mod10r c) d) 10

table-invertible : below 10 (λ c. below 10 (λ d. invertible c d)) ≡ true
table-invertible = refl

at : (c d : ℕ) → c < 10 → d < 10 → invertible c d ≡ true
at c d hc hd =
    below_holds 10 (λ y. invertible c y) d
      (below_holds 10 (λ x. below 10 (λ y. invertible x y)) c table-invertible hc) hd

three_facts :
    (u v w x : ℕ) → ((u == v) && (w == x) && ltb w 10) ≡ true → (u ≡ v) × (w ≡ x) × (w < 10)
three_facts u v w x h =
    let (rest, small) = conjuncts (u == v && w == x) (ltb w 10) h in
    let (undone, symmetric) = conjuncts (u == v) (w == x) rest in
    ((==_iff u v).0 undone, (==_iff w x).0 symmetric, ltb→lt w 10 small)

-- The step can be undone in the digit, is symmetric, and stays below 10.
carry_after_facts :
    (c d : ℕ)
    → c < 10
    → d < 10
    → (position (row mod10r c) (carry_after c d) ≡ d)
      × (carry_after c d ≡ carry_after d c)
      × (carry_after c d < 10)
unfolding carry_after
carry_after_facts c d hc hd =
    three_facts (position (row mod10r c) (entry (row mod10r c) d)) d (entry (row mod10r c) d)
      (entry (row mod10r d) c) (at c d hc hd)

-- From a carry and what follows it, the digit; from a digit and what follows, the carry.
carry_after_digit :
    (c d e : ℕ) → c < 10 → d < 10 → e < 10 → carry_after c d ≡ carry_after c e → d ≡ e
carry_after_digit c d e hc hd he same =
    sym (carry_after_facts c d hc hd).0
    ∙ ap (position (row mod10r c)) same
    ∙ (carry_after_facts c e hc he).0

carry_after_carry :
    (c b d : ℕ) → c < 10 → b < 10 → d < 10 → carry_after c d ≡ carry_after b d → c ≡ b
carry_after_carry c b d hc hb hd same =
    carry_after_digit d c b hd hc hb
      ((carry_after_facts d c hd hc).1 ∙ same ∙ sym (carry_after_facts d b hd hb).1)

-- Every character is a digit.
abbrev pub Digits : Text → Type 0
Digits = All (λ c. is_digit c ≡ true)

digit-lt : (c : ℕ) → is_digit c ≡ true → c - b'0' < 10
digit-lt c h = ground arith

final_carry-lt : (c : ℕ) (s : Text) → c < 10 → Digits s → final_carry c s < 10
unfolding final_carry
final_carry-lt c [] hc h = hc
final_carry-lt c (x ∷ s) hc h =
    final_carry-lt (carry_after c (x - b'0')) s
      (carry_after_facts c (x - b'0') hc (digit-lt x h.0)).2 h.1

final_carry_injective :
    (c b : ℕ) (s : Text) → c < 10 → b < 10 → Digits s → final_carry c s ≡ final_carry b s → c ≡ b
unfolding final_carry
final_carry_injective c b [] hc hb h same = same
final_carry_injective c b (x ∷ s) hc hb h same =
    let hx = digit-lt x h.0 in
    carry_after_carry c b (x - b'0') hc hb hx (
      final_carry_injective (carry_after c (x - b'0')) (carry_after b (x - b'0')) s
        (carry_after_facts c (x - b'0') hc hx).2 (carry_after_facts b (x - b'0') hb hx).2 h.1 same)

final_carry_detects :
    (c : ℕ) (before : Text) (x y : ℕ) (after : Text)
    → c < 10
    → Digits before
    → is_digit x ≡ true
    → is_digit y ≡ true
    → Digits after
    → final_carry c (before ++ (x ∷ after)) ≡ final_carry c (before ++ (y ∷ after))
    → x ≡ y
unfolding final_carry
final_carry_detects c [] x y after hc hb dx dy ha same =
    let hx = digit-lt x dx in
    let hy = digit-lt y dy in
    let same_digit = carry_after_digit c (x - b'0') (y - b'0') hc hx hy (
      final_carry_injective (carry_after c (x - b'0')) (carry_after c (y - b'0')) after
        (carry_after_facts c (x - b'0') hc hx).2 (carry_after_facts c (y - b'0') hc hy).2 ha
        same) in
    ground arith
final_carry_detects c (z ∷ before) x y after hc hb dx dy ha same =
    final_carry_detects (carry_after c (z - b'0')) before x y after
      (carry_after_facts c (z - b'0') hc (digit-lt z hb.0)).2 hb.1 dx dy ha same

Digits-append :
    (s : Text) (x : ℕ) (t : Text) → Digits s → is_digit x ≡ true → Digits t → Digits (s ++ (x ∷ t))
Digits-append [] x t hs hx ht = (hx, ht)
Digits-append (y ∷ s) x t hs hx ht = (hs.0, Digits-append s x t hs.1 hx ht)

-- A wrong digit changes the check digit: two runs of digits that differ in exactly one place have
-- different check digits.
pub mod10_recursive_detects :
    (before : Text) (x y : ℕ) (after : Text)
    → Digits before
    → is_digit x ≡ true
    → is_digit y ≡ true
    → Digits after
    → x ≢ y
    → mod10_recursive (before ++ (x ∷ after)) ≢ mod10_recursive (before ++ (y ∷ after))
unfolding mod10_recursive
mod10_recursive_detects before x y after hb dx dy ha differs same =
    let small =
      final_carry-lt 0 (before ++ (x ∷ after)) (omega arith)
        (Digits-append before x after hb dx ha) in
    let small' =
      final_carry-lt 0 (before ++ (y ∷ after)) (omega arith)
        (Digits-append before y after hb dy ha) in
    differs (final_carry_detects 0 before x y after (omega arith) hb dx dy ha (omega arith))
