-- ===== src/Sps/CheckDigits.antt =====
-- The two check digit schemes of painfree/sps.py: MOD 97-10, and modulo 10 recursive.
use painfree_ebics_middlewar.Prelude.{
  ℕ, zero, suc, ◌+◌, ◌-◌, ◌*◌, ◌%◌, Text, without_space, Bool, ◌&&◌, leb, List, [], ◌∷◌, map,
  if◌then◌else◌,
}

-- An ASCII capital.
abbrev pub is_capital : ℕ → Bool
is_capital c = leb b'A' c && leb c b'Z'

abbrev upper_char : ℕ → ℕ
upper_char c = if leb b'a' c && leb c b'z' then c - 32 else c

-- `normalise_iban` and `normalise_reference`, which are the same.
unfoldable pub normalise : Text → Text
normalise s = map upper_char (without_space s)

-- The number whose digits `_mod97` joins: a letter counts as two digits, from 10 to 35.
unfoldable pub joined_value : ℕ → Text → ℕ
joined_value acc [] = acc
joined_value acc (c ∷ s) =
    joined_value (if is_capital c then acc * 100 + (c - 55) else acc * 10 + (c - b'0')) s

-- `_mod97`.
unfoldable pub mod97 : Text → ℕ
mod97 s = joined_value 0 s % 97

-- `MOD10R`.
abbrev pub mod10r : List (List ℕ)
mod10r =
    (0 ∷ 9 ∷ 4 ∷ 6 ∷ 8 ∷ 2 ∷ 7 ∷ 1 ∷ 3 ∷ 5 ∷ [])
    ∷ (9 ∷ 4 ∷ 6 ∷ 8 ∷ 2 ∷ 7 ∷ 1 ∷ 3 ∷ 5 ∷ 0 ∷ [])
    ∷ (4 ∷ 6 ∷ 8 ∷ 2 ∷ 7 ∷ 1 ∷ 3 ∷ 5 ∷ 0 ∷ 9 ∷ [])
    ∷ (6 ∷ 8 ∷ 2 ∷ 7 ∷ 1 ∷ 3 ∷ 5 ∷ 0 ∷ 9 ∷ 4 ∷ [])
    ∷ (8 ∷ 2 ∷ 7 ∷ 1 ∷ 3 ∷ 5 ∷ 0 ∷ 9 ∷ 4 ∷ 6 ∷ [])
    ∷ (2 ∷ 7 ∷ 1 ∷ 3 ∷ 5 ∷ 0 ∷ 9 ∷ 4 ∷ 6 ∷ 8 ∷ [])
    ∷ (7 ∷ 1 ∷ 3 ∷ 5 ∷ 0 ∷ 9 ∷ 4 ∷ 6 ∷ 8 ∷ 2 ∷ [])
    ∷ (1 ∷ 3 ∷ 5 ∷ 0 ∷ 9 ∷ 4 ∷ 6 ∷ 8 ∷ 2 ∷ 7 ∷ [])
    ∷ (3 ∷ 5 ∷ 0 ∷ 9 ∷ 4 ∷ 6 ∷ 8 ∷ 2 ∷ 7 ∷ 1 ∷ [])
    ∷ (5 ∷ 0 ∷ 9 ∷ 4 ∷ 6 ∷ 8 ∷ 2 ∷ 7 ∷ 1 ∷ 3 ∷ [])
    ∷ []

-- An index into a row, and into the rows; a carry and a digit are always in range.
abbrev pub entry : List ℕ → ℕ → ℕ
entry [] i = 0
entry (x ∷ xs) zero = x
entry (x ∷ xs) (suc i) = entry xs i

abbrev pub row : List (List ℕ) → ℕ → List ℕ
row [] i = []
row (r ∷ rs) zero = r
row (r ∷ rs) (suc i) = row rs i

unfoldable pub carry_after : ℕ → ℕ → ℕ
carry_after carry digit = entry (row mod10r carry) digit

-- The loop of `mod10_recursive`.
unfoldable pub final_carry : ℕ → Text → ℕ
final_carry carry [] = carry
final_carry carry (c ∷ s) = final_carry (carry_after carry (c - b'0')) s

unfoldable pub mod10_recursive : Text → ℕ
mod10_recursive digits = (10 - final_carry 0 digits) % 10
