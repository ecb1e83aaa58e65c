-- ===== src/Schemes/Resolve.antt =====
-- `resolve` of painfree/schemes.py: what an instruction is sent as, decided once.
pub mod Laws
pub mod Refusals
use painfree_ebics_middlewar.Prelude.{
  ℕ, suc, Bool, true, false, not, ◌&&◌, ◌||◌, all, any, is_some, is_none, Option, none, some, List,
  [], ◌∷◌, Decimal, lt_decimal, if◌then◌else◌,
}
use painfree_ebics_middlewar.Schemes.Profiles.{
  PaymentScheme, same_scheme, wants_instant, SchemeError, unsupported, mixed, ceiling, Attempted,
  value, raised, SchemeProfile, SchemeProfiles,
}

-- The fields of an instruction that the decision reads.
pub record Transfer : Type 0 where
  pub scheme : Option PaymentScheme
  pub amount : Decimal

pub record Instruction : Type 0 where
  pub scheme : Option PaymentScheme
  pub transactions : List Transfer

-- The `reason` of a decision.
pub data Reason : Type 0 where
  requested connection_default preflight_no_instant preflight_ceiling : Reason

pub record SchemeDecision : Type 0 where
  pub requested : PaymentScheme
  pub effective : PaymentScheme
  pub fallback : Option PaymentScheme
  pub reason : Reason
  pub per_transaction : Bool
  pub downgraded : Bool

abbrev pub scheme_or : PaymentScheme → Option PaymentScheme → PaymentScheme
scheme_or message none = message
scheme_or message (some s) = s

-- The scheme of the message: the one it names, or the connection's default.
unfoldable pub message_scheme : SchemeProfiles → Instruction → PaymentScheme
message_scheme p i = scheme_or p.default i.scheme

-- The scheme that one transaction asks for in a message of a scheme.
abbrev pub wanted : PaymentScheme → Transfer → PaymentScheme
wanted message t = scheme_or message t.scheme

-- `wanted` has at most one element, and `wanted.pop() if wanted else message`.
abbrev pick : PaymentScheme → List Transfer → Attempted PaymentScheme
pick message [] = value message
pick message (t ∷ ts) =
    if all (λ u. same_scheme (wanted message t) (wanted message u)) ts
    then value (wanted message t)
    else raised mixed

-- `_requested`: the scheme, and whether a transaction named it.
unfoldable pub requested_scheme : SchemeProfiles → Instruction → Attempted PaymentScheme
unfolding message_scheme
requested_scheme p i = pick (message_scheme p i) i.transactions

unfoldable pub names_per_transaction : Instruction → Bool
names_per_transaction i = any (λ t. is_some t.scheme) i.transactions

-- The positions of the transactions above the ceiling.
unfoldable pub over : Decimal → ℕ → List Transfer → List ℕ
over limit index [] = []
over limit index (t ∷ ts) =
    let rest = over limit (suc index) ts in if lt_decimal limit t.amount then index ∷ rest else rest

-- `_downgraded`.
unfoldable pub downgraded_to_normal : PaymentScheme → Reason → Bool → SchemeDecision
downgraded_to_normal scheme reason per_transaction = record {
  requested = scheme;
  effective = PaymentScheme.normal;
  fallback = none;
  reason = reason;
  per_transaction = per_transaction;
  downgraded = true;
}

abbrev is_optional : PaymentScheme → Bool
is_optional scheme = same_scheme scheme PaymentScheme.instant_or_normal

-- The decision for instant with a profile whose ceiling nothing exceeds.
unfoldable pub sent_as_instant : PaymentScheme → Reason → Bool → SchemeDecision
unfolding same_scheme
sent_as_instant scheme origin per_transaction = record {
  requested = scheme;
  effective = PaymentScheme.instant;
  fallback = if is_optional scheme then some PaymentScheme.normal else none;
  reason = origin;
  per_transaction = per_transaction;
  downgraded = false;
}

abbrev below_ceiling : PaymentScheme → Reason → Bool → List ℕ → Attempted SchemeDecision
below_ceiling scheme origin per_transaction [] =
    value (sent_as_instant scheme origin per_transaction)
below_ceiling scheme origin per_transaction (index ∷ more) =
    if is_optional scheme
    then value (downgraded_to_normal scheme preflight_ceiling per_transaction)
    else raised (ceiling (index ∷ more))

abbrev over_ceiling : Option Decimal → List Transfer → List ℕ
over_ceiling none transactions = []
over_ceiling (some limit) transactions = over limit 0 transactions

-- The pre-flight checks, for the instant profile of the connection.
abbrev pre_flight :
    PaymentScheme → List Transfer → Bool → Reason → Option SchemeProfile → Attempted SchemeDecision
pre_flight scheme transactions per_transaction origin none =
    if is_optional scheme
    then value (downgraded_to_normal scheme preflight_no_instant per_transaction)
    else raised unsupported
pre_flight scheme transactions per_transaction origin (some configured) =
    below_ceiling scheme origin per_transaction (over_ceiling configured.max_amount transactions)

-- The part of `resolve` behind the choice of the scheme.
unfoldable pub resolve_scheme :
    SchemeProfiles → Instruction → PaymentScheme → Bool → Reason → Attempted SchemeDecision
unfolding sent_as_instant downgraded_to_normal wants_instant same_scheme
resolve_scheme p i scheme per_transaction origin =
    if wants_instant scheme
    then pre_flight scheme i.transactions per_transaction origin p.instant_profile
    else value (record {
      requested = scheme;
      effective = PaymentScheme.normal;
      fallback = none;
      reason = origin;
      per_transaction = per_transaction;
      downgraded = false;
    })

abbrev origin_of : Instruction → Reason
origin_of i =
    if names_per_transaction i || is_some i.scheme then Reason.requested else connection_default

abbrev resolve_for :
    SchemeProfiles → Instruction → Attempted PaymentScheme → Attempted SchemeDecision
resolve_for p i (raised e) = raised e
resolve_for p i (value scheme) = resolve_scheme p i scheme (names_per_transaction i) (origin_of i)

unfoldable pub resolve : SchemeProfiles → Instruction → Attempted SchemeDecision
resolve p i = resolve_for p i (requested_scheme p i)
