-- ===== src/Prelude/Int.antt =====
-- Python's `int` as a number with a sign, and `int(text)` over ASCII digits.
use Prim.Native.Nat.{ℕ, ◌+◌, ◌-◌, ◌*◌}
use mathlib.Core.Bool.{Bool, false, ◌&&◌, ◌||◌}
use mathlib.Core.List.{[], ◌∷◌}
use mathlib.Core.Option.{Option, none, some}
use painfree_ebics_middlewar.Prelude.Tests.{leb, ◌==◌, if◌then◌else◌}
use painfree_ebics_middlewar.Prelude.Strings.{Text, strip}

-- `negsuc n` is -(n + 1).
pub data ℤ : Type 0 where
  pos : ℕ → ℤ
  negsuc : ℕ → ℤ

abbrev pub negate : ℕ → ℤ
negate n = if n == 0 then pos 0 else negsuc (n - 1)

abbrev pub is_digit : ℕ → Bool
is_digit c = leb b'0' c && leb c b'9'

-- The digits after the sign, with single underscores between them; the flag says that the last
-- character was a digit.
unfoldable pub int_digits : Bool → ℕ → Text → Option ℕ
int_digits last acc [] = if last then some acc else none
int_digits last acc (c ∷ s) =
    let rest = int_digits (is_digit c) (if is_digit c then acc * 10 + (c - b'0') else acc) s in
    if is_digit c || (c == b'_' && last) then rest else none

abbrev signed : (ℕ → ℤ) → Option ℕ → Option ℤ
signed sign none = none
signed sign (some n) = some (sign n)

abbrev int_sign : Text → Option ℤ
int_sign [] = none
int_sign (c ∷ s) =
    if c == b'-'
    then signed negate (int_digits false 0 s)
    else signed pos (int_digits false 0 (if c == b'+' then s else c ∷ s))

-- `none` is the `ValueError`.
unfoldable pub int : Text → Option ℤ
unfolding int_digits strip
int s = int_sign (strip s)
