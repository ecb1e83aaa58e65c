-- ===== src/Examples/PaymentRules.antt =====
-- The Swiss payment rules at concrete inputs, among them the reference values that the tests of
-- painfree/sps.py pin.
use painfree_ebics_middlewar.Prelude.{
  negsuc, neg_part, ◌≤◌, Text, text, text_eq, is_space, without_space, true, false, ◌≡◌, ◌≢◌, ◌↔◌,
  refl, [], ◌∷◌, ◌++◌, none, some, Decimal, lt_decimal, zero_decimal, inr, arith,
}
use painfree_ebics_middlewar.Sps.CheckDigits.{
  normalise, joined_value, mod97, carry_after, final_carry, mod10_recursive,
}
use painfree_ebics_middlewar.Sps.Accounts.{
  iban_broken, iban_failure, qrr_broken, qrr_failure, scor_broken, scor_failure,
}
use painfree_ebics_middlewar.Sps.Rules.{
  amount_failures, reference_failures, is_currency_code, minor_units,
}
use painfree_ebics_middlewar.Sps.Detection.{mod10_recursive_detects}
use painfree_ebics_middlewar.Sps.Remainders.{mod97_detects}
use painfree_ebics_middlewar.Sps.Admissible.{
  Admissible, reference_failures_none, amount_failures_none,
}

abbrev qr_iban : Text
qr_iban = text "CH44 3199 9123 0008 8901 2"

abbrev qr_reference : Text
qr_reference = text "21 00000 00003 13947 14300 09017"

qr_iban-passes : iban_failure qr_iban ≡ none
unfolding iban_failure iban_broken normalise without_space is_space mod97 joined_value text_eq
qr_iban-passes = refl

qr_reference-passes : qrr_failure qr_reference ≡ none
unfolding qrr_failure qrr_broken normalise without_space is_space mod10_recursive final_carry
    carry_after
qr_reference-passes = refl

-- `CH48 2196 6000 0096 1338 8` with `RF18 5390 0754 7034`.
plain_iban-passes : iban_failure (text "CH48 2196 6000 0096 1338 8") ≡ none
unfolding iban_failure iban_broken normalise without_space is_space mod97 joined_value text_eq
plain_iban-passes = refl

scor-passes : scor_failure (text "RF18 5390 0754 7034") ≡ none
unfolding scor_failure scor_broken normalise without_space is_space mod97 joined_value text_eq
scor-passes = refl

mod10_recursive_detects_example :
    mod10_recursive (text "2100" ++ (b'3' ∷ text "17"))
    ≢ mod10_recursive (text "2100" ++ (b'8' ∷ text "17"))
mod10_recursive_detects_example =
    mod10_recursive_detects (text "2100") b'3' b'8' (text "17") (refl, (refl, (refl, (refl, tt))))
      refl refl (refl, (refl, tt)) (λ e. absurd (omega arith))

mod97_detects_example :
    mod97 (text "5390" ++ (b'R' ∷ text "F18")) ≢ mod97 (text "5390" ++ (b'Q' ∷ text "F18"))
mod97_detects_example =
    mod97_detects (text "5390") b'R' b'Q' (text "F18") (inr (refl, refl))
      (λ e. absurd (omega arith))

reference_failures_none_example :
    (reference_failures qr_iban
        (some qr_reference)
        none
        (text "CHF")
        (text "transactions.0")
        (text "QRR")
      ≡ [])
    ↔ Admissible qr_iban (some qr_reference) none (text "CHF") (text "QRR")
reference_failures_none_example =
    reference_failures_none qr_iban (text "QRR") (some qr_reference) none (text "CHF")
      (text "transactions.0")

abbrev rappen : Decimal
rappen = record { negative = false; digits = 1995; exponent = negsuc 1 }

amount_failures_none_example :
    (amount_failures rappen (text "CHF") (text "transactions.0") ≡ []) ↔ (
      (is_currency_code (text "CHF") ≡ true)
      × (lt_decimal zero_decimal rappen ≡ true)
      × (neg_part rappen.exponent ≤ minor_units (text "CHF")))
amount_failures_none_example = amount_failures_none rappen (text "CHF") (text "transactions.0")
