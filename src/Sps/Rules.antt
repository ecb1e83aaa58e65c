-- ===== src/Sps/Rules.antt =====
-- The rules of painfree/sps.py on amounts, and on an account together with its reference. A failure is
-- its location and its rule; the sentence for the reader is left out.
use painfree_ebics_middlewar.Prelude.{
  ℕ, ◌==◌, Text, text, text_eq, is_empty, Bool, false, not, ◌&&◌, ◌||◌, ltb, all, any, length, take,
  drop, neg_part, Option, none, some, List, [], ◌∷◌, ◌++◌, Decimal, lt_decimal, zero_decimal,
  if◌then◌else◌,
}
use painfree_ebics_middlewar.Sps.CheckDigits.{is_capital}
use painfree_ebics_middlewar.Sps.Accounts.{
  Rule, currency_format, amount_positive, amount_minor_units, reference_unexpected,
  reference_missing, reference_exclusive, reference_type_rule, qrr_requires_qr_iban,
  currency_qr_bill, scor_forbidden_with_qr_iban, qr_iban_requires_qrr, is_qr_iban, qrr_failure,
  scor_failure,
}

-- `RuleFailure`.
pub record RuleFailure : Type 0 where
  pub location : Text
  pub rule : Rule

abbrev pub failure : Text → Text → Rule → RuleFailure
failure location field rule = record { location = location ++ field; rule = rule }

abbrev is_one_of : List Text → Text → Bool
is_one_of codes code = any (λ c. text_eq c code) codes

-- `CURRENCY_MINOR_UNITS`, by the number of units.
abbrev without_units : List Text
without_units =
    text "BIF"
    ∷ text "CLP"
    ∷ text "DJF"
    ∷ text "GNF"
    ∷ text "ISK"
    ∷ text "JPY"
    ∷ text "KMF"
    ∷ text "KRW"
    ∷ text "PYG"
    ∷ text "RWF"
    ∷ text "UGX"
    ∷ text "UYI"
    ∷ text "VND"
    ∷ text "VUV"
    ∷ text "XAF"
    ∷ text "XOF"
    ∷ text "XPF"
    ∷ []

abbrev with_three_units : List Text
with_three_units =
    text "BHD" ∷ text "IQD" ∷ text "JOD" ∷ text "KWD" ∷ text "LYD" ∷ text "OMR" ∷ text "TND" ∷ []

abbrev with_four_units : List Text
with_four_units = text "CLF" ∷ text "UYW" ∷ []

unfoldable pub minor_units : Text → ℕ
minor_units currency =
    if is_one_of without_units currency
    then 0
    else if is_one_of with_three_units currency
    then 3
    else if is_one_of with_four_units currency
    then 4
    else 2

-- `CURRENCY_CODE.match`; `$` matches at the end and in front of a last line feed.
unfoldable pub is_currency_code : Text → Bool
is_currency_code currency =
    (length currency == 3 || (length currency == 4 && text_eq (drop 3 currency) (10 ∷ [])))
    && all is_capital (take 3 currency)

abbrev pub when : Bool → RuleFailure → List RuleFailure
when b f = if b then f ∷ [] else []

-- `amount_failures`; the negated exponent is above the units only if it is positive.
unfoldable pub amount_failures : Decimal → (currency location : Text) → List RuleFailure
amount_failures amount currency location =
    if not (is_currency_code currency)
    then failure location (text ".currency") currency_format ∷ []
    else when (not (lt_decimal zero_decimal amount))
        (failure location (text ".amount") amount_positive)
      ++ when (ltb (minor_units currency) (neg_part amount.exponent))
          (failure location (text ".amount") amount_minor_units)

-- `reference or ""`.
abbrev pub is_given : Option Text → Bool
is_given none = false
is_given (some s) = not (is_empty s)

abbrev pub given : Option Text → Text
given none = []
given (some s) = s

abbrev pub broken_rule : Text → Option Rule → List RuleFailure
broken_rule location none = []
broken_rule location (some rule) = failure location (text ".reference.reference") rule ∷ []

-- `QR_BILL_CURRENCIES`.
abbrev pub is_qr_bill_currency : Text → Bool
is_qr_bill_currency currency = text_eq currency (text "CHF") || text_eq currency (text "EUR")

-- The kinds of references, `REFERENCE_TYPES`.
pub data ReferenceType : Type 0 where
  qrr scor without : ReferenceType

unfoldable pub reference_type_of : Text → Option ReferenceType
reference_type_of s =
    if text_eq s (text "QRR")
    then some qrr
    else if text_eq s (text "SCOR")
    then some scor
    else if text_eq s (text "NONE")
    then some without
    else none

module _ (creditor_iban : Text) (reference unstructured : Option Text)
    (currency location : Text) where
  -- The failures in the order in which the checks stand, by the type of the reference.
  unfoldable pub typed_failures : ReferenceType → List RuleFailure
  typed_failures without =
      when (is_given reference)
        (failure location (text ".reference.reference") reference_unexpected)
      ++ when (is_qr_iban creditor_iban)
          (failure location (text ".reference.type") qr_iban_requires_qrr)
  typed_failures qrr =
      if is_given reference
      then when (is_given unstructured)
          (failure location (text ".remittance_information") reference_exclusive)
        ++ (broken_rule location (qrr_failure (given reference))
            ++ (when (not (is_qr_iban creditor_iban))
                  (failure location (text ".creditor_iban") qrr_requires_qr_iban)
                ++ when (not (is_qr_bill_currency currency))
                    (failure location (text ".currency") currency_qr_bill)))
      else failure location (text ".reference.reference") reference_missing ∷ []
  typed_failures scor =
      if is_given reference
      then when (is_given unstructured)
          (failure location (text ".remittance_information") reference_exclusive)
        ++ (broken_rule location (scor_failure (given reference))
            ++ when (is_qr_iban creditor_iban)
                (failure location (text ".reference.type") scor_forbidden_with_qr_iban))
      else failure location (text ".reference.reference") reference_missing ∷ []

  abbrev pub failures_of : Option ReferenceType → List RuleFailure
  failures_of none = failure location (text ".reference.type") reference_type_rule ∷ []
  failures_of (some t) = typed_failures t

  unfoldable pub reference_failures : Text → List RuleFailure
  reference_failures reference_type = failures_of (reference_type_of reference_type)
