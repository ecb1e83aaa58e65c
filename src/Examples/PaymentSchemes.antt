-- ===== src/Examples/PaymentSchemes.antt =====
-- The choice of the payment scheme at concrete inputs: painfree/schemes.py.

use painfree_ebics_middlewar.Prelude.{
  ℕ, pos, false, ◌≡◌, ◌↔◌, refl, [], ◌∷◌, Option, none, some, Decimal, lt_decimal, scaled,
}
use painfree_ebics_middlewar.Schemes.Profiles.{
  PaymentScheme, same_scheme, wants_instant, SchemeProfiles, value, raised, ceiling, default_normal,
  default_instant, default_refusal_codes,
}
use painfree_ebics_middlewar.Schemes.Resolve.{
  Transfer, Instruction, SchemeDecision, Reason, message_scheme, requested_scheme, over,
  names_per_transaction, sent_as_instant, resolve_scheme, resolve,
}
use painfree_ebics_middlewar.Schemes.Resolve.Laws.{RespectsCeiling, Decided, resolve-Decided}
use painfree_ebics_middlewar.Schemes.Resolve.Refusals.{resolve_optional, resolve_instant}

abbrev francs : ℕ → Decimal
francs n = record { negative = false; digits = n; exponent = pos 0 }

-- Instant transfers of up to 20000 francs.
abbrev limited : SchemeProfiles
limited = record {
  default = PaymentScheme.instant_or_normal;
  normal_profile = default_normal;
  instant_profile = some (record default_instant { max_amount = some (francs 20000) });
  instant_refusal_codes = default_refusal_codes;
}

abbrev paying : Option PaymentScheme → ℕ → Transfer
paying s n = record { scheme = s; amount = francs n }

abbrev small : Instruction
small = record { scheme = none; transactions = paying none 150 ∷ paying none 20000 ∷ [] }

abbrev large : Instruction
large = record {
  scheme = some PaymentScheme.instant;
  transactions = paying none 150 ∷ paying none 20001 ∷ [];
}

small-requested : requested_scheme limited small ≡ value PaymentScheme.instant_or_normal
unfolding requested_scheme message_scheme same_scheme
small-requested = refl

large-requested : requested_scheme limited large ≡ value PaymentScheme.instant
unfolding requested_scheme message_scheme same_scheme
large-requested = refl

abbrev small_decision : SchemeDecision
small_decision = record {
  requested = PaymentScheme.instant_or_normal;
  effective = PaymentScheme.instant;
  fallback = some PaymentScheme.normal;
  reason = Reason.connection_default;
  per_transaction = false;
  downgraded = false;
}

small-resolve : resolve limited small ≡ value small_decision
unfolding resolve requested_scheme message_scheme resolve_scheme sent_as_instant over
    names_per_transaction same_scheme wants_instant lt_decimal scaled
small-resolve = refl

-- The second transfer is above the ceiling.
large-resolve : resolve limited large ≡ raised (ceiling (1 ∷ []))
unfolding resolve requested_scheme message_scheme resolve_scheme sent_as_instant over
    names_per_transaction same_scheme wants_instant lt_decimal scaled
large-resolve = refl

resolve-Decided_example : Decided limited small small_decision
resolve-Decided_example = resolve-Decided limited small small_decision small-resolve

resolve_optional_example :
    (d : SchemeDecision) × (resolve limited small ≡ value d)
    × ((d.effective ≡ PaymentScheme.instant) ↔ RespectsCeiling limited small)
resolve_optional_example = resolve_optional limited small small-requested

resolve_instant_example :
    ((d : SchemeDecision) × (resolve limited large ≡ value d)) ↔ RespectsCeiling limited large
resolve_instant_example = resolve_instant limited large large-requested
