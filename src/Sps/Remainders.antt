-- ===== src/Sps/Remainders.antt =====
-- What MOD 97-10 detects: `_mod97` of painfree/sps.py.
use painfree_ebics_middlewar.Prelude.{
  ℕ, ◌+◌, ◌-◌, ◌%◌, Text, is_digit, true, false, Bool-cases, [], ◌∷◌, ◌++◌, if◌then◌else◌, ◌≡◌, ◌≢◌,
  refl, sym, ap, ◌∙◌, ◌⊎◌, inl, inr, ◌*◌, ◌≤◌, arith,
}
use painfree_ebics_middlewar.Sps.CheckDigits.{is_capital, joined_value, mod97}

same_tens : (a b d : ℕ) → (a * 10 + d) % 97 ≡ (b * 10 + d) % 97 → a % 97 ≡ b % 97
same_tens a b d h = omega arith

same_hundreds : (a b d : ℕ) → (a * 100 + d) % 97 ≡ (b * 100 + d) % 97 → a % 97 ≡ b % 97
same_hundreds a b d h = omega arith

joined_value_digit :
    (acc c : ℕ) (s : Text)
    → is_capital c ≡ false
    → joined_value acc (c ∷ s) ≡ joined_value (acc * 10 + (c - b'0')) s
unfolding joined_value
joined_value_digit acc c s e = rw e refl

joined_value_capital :
    (acc c : ℕ) (s : Text)
    → is_capital c ≡ true
    → joined_value acc (c ∷ s) ≡ joined_value (acc * 100 + (c - 55)) s
unfolding joined_value
joined_value_capital acc c s e = rw e refl

joined_value_injective :
    (s : Text) (a b : ℕ) → joined_value a s % 97 ≡ joined_value b s % 97 → a % 97 ≡ b % 97
unfolding joined_value
joined_value_injective [] a b h = h
joined_value_injective (c ∷ s) a b h = elim (Bool-cases (is_capital c)) [
  | inl e ↦ same_hundreds a b (c - 55) (
      joined_value_injective s (a * 100 + (c - 55)) (b * 100 + (c - 55)) (
        ap (λ v. v % 97) (sym (joined_value_capital a c s e))
        ∙ h
        ∙ ap (λ v. v % 97) (joined_value_capital b c s e)))
  | inr e ↦ same_tens a b (c - b'0') (
      joined_value_injective s (a * 10 + (c - b'0')) (b * 10 + (c - b'0')) (
        ap (λ v. v % 97) (sym (joined_value_digit a c s e))
        ∙ h
        ∙ ap (λ v. v % 97) (joined_value_digit b c s e)))
]

-- Two digits, or two capitals.
abbrev pub SameKind : ℕ → ℕ → Type 0
SameKind x y =
    ((is_digit x ≡ true) × (is_digit y ≡ true)) ⊎ ((is_capital x ≡ true) × (is_capital y ≡ true))

different_digits :
    (acc x y : ℕ)
    → is_digit x ≡ true
    → is_digit y ≡ true
    → (acc * 10 + (x - b'0')) % 97 ≡ (acc * 10 + (y - b'0')) % 97
    → x ≡ y
different_digits acc x y dx dy h =
    let hx : (48 ≤ x) × (x ≤ 57) = ground arith in
    let hy : (48 ≤ y) × (y ≤ 57) = ground arith in omega (arith, hx.0, hx.1, hy.0, hy.1)

different_capitals :
    (acc x y : ℕ)
    → is_capital x ≡ true
    → is_capital y ≡ true
    → (acc * 100 + (x - 55)) % 97 ≡ (acc * 100 + (y - 55)) % 97
    → x ≡ y
different_capitals acc x y dx dy h =
    let hx : (65 ≤ x) × (x ≤ 90) = ground arith in
    let hy : (65 ≤ y) × (y ≤ 90) = ground arith in omega (arith, hx.0, hx.1, hy.0, hy.1)

digit_no_capital : (c : ℕ) → is_digit c ≡ true → is_capital c ≡ false
digit_no_capital c h = ground arith

joined_value_detects :
    (before : Text) (acc x y : ℕ) (after : Text)
    → SameKind x y
    → joined_value acc (before ++ (x ∷ after)) % 97 ≡ joined_value acc (before ++ (y ∷ after)) % 97
    → x ≡ y
unfolding joined_value
joined_value_detects [] acc x y after (inl (dx, dy)) h = different_digits acc x y dx dy (
    joined_value_injective after (acc * 10 + (x - b'0')) (acc * 10 + (y - b'0')) (
      ap (λ v. v % 97) (sym (joined_value_digit acc x after (digit_no_capital x dx)))
      ∙ h
      ∙ ap (λ v. v % 97) (joined_value_digit acc y after (digit_no_capital y dy))))
joined_value_detects [] acc x y after (inr (dx, dy)) h = different_capitals acc x y dx dy (
    joined_value_injective after (acc * 100 + (x - 55)) (acc * 100 + (y - 55)) (
      ap (λ v. v % 97) (sym (joined_value_capital acc x after dx))
      ∙ h
      ∙ ap (λ v. v % 97) (joined_value_capital acc y after dy)))
joined_value_detects (z ∷ before) acc x y after kind h =
    joined_value_detects before
      (if is_capital z then acc * 100 + (z - 55) else acc * 10 + (z - b'0')) x y after kind h

-- MOD 97-10 notices a wrong character: two texts that differ in exactly one place, where one has a
-- digit in place of a digit or a capital in place of a capital, have different remainders.
pub mod97_detects :
    (before : Text) (x y : ℕ) (after : Text)
    → SameKind x y
    → x ≢ y
    → mod97 (before ++ (x ∷ after)) ≢ mod97 (before ++ (y ∷ after))
unfolding mod97
mod97_detects before x y after kind differs same =
    differs (joined_value_detects before 0 x y after kind same)
