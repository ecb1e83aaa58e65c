-- ===== src/Schemes/Profiles.antt =====
-- `PaymentScheme`, `Code`, `SchemeProfile` and `SchemeProfiles` of painfree/schemes.py.
use painfree_ebics_middlewar.Prelude.{
  ℕ, Text, text, text_eq, strip, is_empty, length, ltb, Bool, true, false, not, ◌&&◌, ◌||◌, is_some,
  Option, none, some, List, [], ◌∷◌, Decimal, lt_decimal, zero_decimal, if◌then◌else◌,
}

pub data PaymentScheme : Type 0 where
  normal instant instant_or_normal : PaymentScheme

unfoldable pub same_scheme : PaymentScheme → PaymentScheme → Bool
same_scheme PaymentScheme.normal PaymentScheme.normal = true
same_scheme PaymentScheme.instant PaymentScheme.instant = true
same_scheme PaymentScheme.instant_or_normal PaymentScheme.instant_or_normal = true
same_scheme _ _ = false

-- `sendable`.
unfoldable pub sendable : PaymentScheme → Bool
sendable PaymentScheme.instant_or_normal = false
sendable _ = true

-- `wants_instant`.
unfoldable pub wants_instant : PaymentScheme → Bool
wants_instant PaymentScheme.normal = false
wants_instant _ = true

-- What the module raises: the `ValueError`s, and `SchemeUnavailable` with the rule that broke and,
-- for the ceiling, the transactions that broke it.
pub data SchemeError : Type 0 where
  empty_code code_too_long bad_priority ceiling_not_positive : SchemeError
  default_without_profile no_instant_profile not_an_attempt : SchemeError
  unsupported mixed : SchemeError
  ceiling : (indices : List ℕ) → SchemeError

pub data Attempted {ℓ} (A : Type ℓ) : Type ℓ where
  value : A → Attempted A
  raised : SchemeError → Attempted A

-- A code slot.
pub record Code : Type 0 where
  pub code : Text
  pub proprietary : Bool

-- `Code.__post_init__`.
unfoldable pub make_code : Text → Bool → Attempted Code
make_code given proprietary =
    let stripped = strip given in
    if is_empty stripped
    then raised empty_code
    else if ltb (if proprietary then 35 else 4) (length stripped)
    then raised code_too_long
    else value (record { code = stripped; proprietary = proprietary })

pub record SchemeProfile : Type 0 where
  pub service_name : Text
  pub service_option : Option Text
  pub scope : Option Text
  pub service_level : Option Code
  pub local_instrument : Option Code
  pub category_purpose : Option Code
  pub instruction_priority : Option Text
  pub max_amount : Option Decimal

-- `PRIORITIES`.
unfoldable pub is_priority : Text → Bool
is_priority s = text_eq s (text "HIGH") || text_eq s (text "NORM")

abbrev wrong_priority : Option Text → Bool
wrong_priority none = false
wrong_priority (some s) = not (is_priority s)

abbrev wrong_ceiling : Option Decimal → Bool
wrong_ceiling none = false
wrong_ceiling (some a) = not (lt_decimal zero_decimal a)

-- `SchemeProfile.__post_init__`.
unfoldable pub make_profile : SchemeProfile → Attempted SchemeProfile
unfolding is_priority
make_profile p =
    if wrong_priority p.instruction_priority
    then raised bad_priority
    else if wrong_ceiling p.max_amount
    then raised ceiling_not_positive
    else value p

abbrev is_set : Option Text → Bool
is_set none = false
is_set (some s) = not (is_empty s)

-- `emits_payment_type`.
unfoldable pub emits_payment_type : SchemeProfile → Bool
emits_payment_type p =
    is_set p.instruction_priority
    || is_some p.service_level
    || is_some p.local_instrument
    || is_some p.category_purpose

-- `DEFAULT_NORMAL`.
abbrev pub default_normal : SchemeProfile
default_normal = record {
  service_name = text "MCT";
  service_option = none;
  scope = some (text "CH");
  service_level = none;
  local_instrument = none;
  category_purpose = none;
  instruction_priority = none;
  max_amount = none;
}

-- `DEFAULT_INSTANT`.
abbrev pub default_instant : SchemeProfile
default_instant = record default_normal {
  service_option = some (text "INST");
  service_level = some (record { code = text "SEPA"; proprietary = false });
  local_instrument = some (record { code = text "INST"; proprietary = false });
}

-- `DEFAULT_REFUSAL_CODES`.
abbrev pub default_refusal_codes : List Text
default_refusal_codes = text "091112" ∷ []

pub record SchemeProfiles : Type 0 where
  pub default : PaymentScheme
  pub normal_profile : SchemeProfile
  pub instant_profile : Option SchemeProfile
  pub instant_refusal_codes : List Text

abbrev default_profiles : SchemeProfiles
default_profiles = record {
  default = PaymentScheme.normal;
  normal_profile = default_normal;
  instant_profile = none;
  instant_refusal_codes = default_refusal_codes;
}

-- `instant_configured`.
unfoldable pub instant_configured : SchemeProfiles → Bool
instant_configured p = is_some p.instant_profile

-- `SchemeProfiles.__post_init__`.
unfoldable pub make_profiles : SchemeProfiles → Attempted SchemeProfiles
unfolding same_scheme
make_profiles p =
    if same_scheme p.default PaymentScheme.instant && not (is_some p.instant_profile)
    then raised default_without_profile
    else value p

-- `profile`.
unfoldable pub profile : PaymentScheme → SchemeProfiles → Attempted SchemeProfile
profile PaymentScheme.normal p = value p.normal_profile
profile PaymentScheme.instant p = elim p.instant_profile [
  | none ↦ raised no_instant_profile
  | some configured ↦ value configured
]
profile PaymentScheme.instant_or_normal p = raised not_an_attempt

-- `return_code in self.instant_refusal_codes`.
unfoldable pub contains_code : List Text → Text → Bool
contains_code [] code = false
contains_code (c ∷ cs) code = text_eq c code || contains_code cs code

-- `refuses_instant`.
unfoldable pub refuses_instant : SchemeProfiles → Option Text → Bool
refuses_instant p none = false
refuses_instant p (some code) = not (is_empty code) && contains_code p.instant_refusal_codes code

-- `with_instant`: `replace` builds the object anew.
unfoldable pub with_instant : SchemeProfiles → Option SchemeProfile → Attempted SchemeProfiles
with_instant p chosen = make_profiles (record p { instant_profile = chosen })
