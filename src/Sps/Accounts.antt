-- ===== src/Sps/Accounts.antt =====
-- The account numbers and references of painfree/sps.py.
use painfree_ebics_middlewar.Prelude.{
  ℕ, ◌+◌, ◌-◌, ◌*◌, ◌==◌, Text, text, text_eq, is_digit, Bool, false, not, ◌&&◌, ◌||◌, leb, all,
  length, take, drop, Option, none, some, List, [], ◌∷◌, ◌++◌, if◌then◌else◌,
}
use painfree_ebics_middlewar.Sps.CheckDigits.{is_capital, normalise, mod97, mod10_recursive}

abbrev is_alnum : ℕ → Bool
is_alnum c = is_digit c || is_capital c

-- The rules, by their ids.
pub data Rule : Type 0 where
  iban_format iban_length iban_checksum qrr_format qrr_check_digit scor_format scor_check_digit :
      Rule
  currency_format amount_positive amount_minor_units : Rule
  reference_type_rule reference_unexpected reference_missing reference_exclusive : Rule
  qrr_requires_qr_iban currency_qr_bill scor_forbidden_with_qr_iban qr_iban_requires_qrr : Rule

-- `IBAN_LENGTHS`.
abbrev iban_lengths : List (Text × ℕ)
iban_lengths =
    (text "AT", 20)
    ∷ (text "BE", 16)
    ∷ (text "CH", 21)
    ∷ (text "CZ", 24)
    ∷ (text "DE", 22)
    ∷ (text "DK", 18)
    ∷ (text "ES", 24)
    ∷ (text "FI", 18)
    ∷ (text "FR", 27)
    ∷ (text "GB", 22)
    ∷ (text "GR", 27)
    ∷ (text "HU", 28)
    ∷ (text "IE", 22)
    ∷ (text "IT", 27)
    ∷ (text "LI", 21)
    ∷ (text "LU", 20)
    ∷ (text "NL", 18)
    ∷ (text "NO", 15)
    ∷ (text "PL", 28)
    ∷ (text "PT", 25)
    ∷ (text "SE", 24)
    ∷ (text "SI", 19)
    ∷ (text "SK", 24)
    ∷ []

abbrev find_length : List (Text × ℕ) → Text → Option ℕ
find_length [] country = none
find_length ((c, n) ∷ rest) country = if text_eq c country then some n else find_length rest country

abbrev wrong_length : Option ℕ → Text → Bool
wrong_length none iban = false
wrong_length (some n) iban = not (length iban == n)

-- `iban_failure`, of the normalised text.
unfoldable pub iban_broken : Text → Option Rule
iban_broken iban =
    if not (leb 4 (length iban) && leb (length iban) 34) || not (all is_alnum iban)
    then some iban_format
    else if not (all is_capital (take 2 iban)) || not (all is_digit (take 2 (drop 2 iban)))
    then some iban_format
    else if wrong_length (find_length iban_lengths (take 2 iban)) iban
    then some iban_length
    else if not (mod97 (drop 4 iban ++ take 4 iban) == 1)
    then some iban_checksum
    else none

unfoldable pub iban_failure : Text → Option Rule
iban_failure value = iban_broken (normalise value)

-- The number that decimal digits write.
abbrev pub number_of : ℕ → Text → ℕ
number_of acc [] = acc
number_of acc (c ∷ s) = number_of (acc * 10 + (c - b'0')) s

-- `swiss_iid`, of the normalised text; `isdigit` of an empty text is false, and this one has five
-- characters.
unfoldable pub iid_of : Text → Option ℕ
iid_of iban =
    let iid = take 5 (drop 4 iban) in
    if not (text_eq (take 2 iban) (text "CH") || text_eq (take 2 iban) (text "LI"))
      || not (length iban == 21)
      || not (all is_digit iid)
    then none
    else some (number_of 0 iid)

unfoldable pub swiss_iid : Text → Option ℕ
swiss_iid value = iid_of (normalise value)

abbrev in_qr_range : Option ℕ → Bool
in_qr_range none = false
in_qr_range (some iid) = leb 30000 iid && leb iid 31999

-- `QR_IID_RANGE`.
unfoldable pub is_qr_iban : Text → Bool
is_qr_iban value = in_qr_range (swiss_iid value)

-- `qrr_failure`, of the normalised text: `reference[:-1]` is all but the last of 27 digits.
unfoldable pub qrr_broken : Text → Option Rule
qrr_broken reference =
    if not (length reference == 27) || not (all is_digit reference)
    then some qrr_format
    else if not (mod10_recursive (take 26 reference) == number_of 0 (drop 26 reference))
    then some qrr_check_digit
    else none

unfoldable pub qrr_failure : Text → Option Rule
qrr_failure value = qrr_broken (normalise value)

-- The regular expression of an ISO 11649 reference.
abbrev is_scor_shape : Text → Bool
is_scor_shape reference =
    text_eq (take 2 reference) (text "RF")
    && leb 5 (length reference)
    && leb (length reference) 25
    && all is_digit (take 2 (drop 2 reference))
    && all is_alnum (drop 4 reference)

unfoldable pub scor_broken : Text → Option Rule
scor_broken reference =
    if not (is_scor_shape reference)
    then some scor_format
    else if not (mod97 (drop 4 reference ++ take 4 reference) == 1)
    then some scor_check_digit
    else none

unfoldable pub scor_failure : Text → Option Rule
scor_failure value = scor_broken (normalise value)
