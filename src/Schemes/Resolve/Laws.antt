-- ===== src/Schemes/Resolve/Laws.antt =====
-- What `resolve` of painfree/schemes.py decides, and when it refuses.

use painfree_ebics_middlewar.Prelude.{
  ℕ, suc, Bool, true, false, Bool-cases, All, Option, none, some, List, [], ◌∷◌, Decimal,
  lt_decimal, ◌≡◌, refl, subst, ◌↔◌, inl, inr, arith,
}
use painfree_ebics_middlewar.Schemes.Profiles.{
  PaymentScheme, same_scheme, sendable, Attempted, value, raised, SchemeProfile, SchemeProfiles,
}
use painfree_ebics_middlewar.Schemes.Resolve.{
  Transfer, Instruction, SchemeDecision, Reason, requested_scheme, over, over_ceiling,
  below_ceiling, pre_flight, origin_of, resolve_for, downgraded_to_normal, sent_as_instant,
  resolve_scheme, resolve, names_per_transaction,
}

pub same_scheme→eq : (a b : PaymentScheme) → same_scheme a b ≡ true → a ≡ b
unfolding same_scheme
same_scheme→eq a b h = ground arith

-- No amount of these transfers is above the limit.
abbrev pub Within : Decimal → List Transfer → Type 0
Within limit = All (λ t. lt_decimal limit t.amount ≡ false)

Within-over :
    (limit : Decimal) (n : ℕ) (ts : List Transfer) → over limit n ts ≡ [] → Within limit ts
unfolding over
Within-over limit n [] h = tt
Within-over limit n (t ∷ ts) h = elim (Bool-cases (lt_decimal limit t.amount)) [
  | inl above ↦ absurd (ground arith)
  | inr below ↦ (below, Within-over limit (suc n) ts (rw below at h))
]

abbrev pub RespectsCeiling : SchemeProfiles → Instruction → Type 0
RespectsCeiling p i =
    (configured : SchemeProfile) × (p.instant_profile ≡ some configured)
    × ((limit : Decimal) → configured.max_amount ≡ some limit → Within limit i.transactions)

pub record Decided (p : SchemeProfiles) (i : Instruction) (d : SchemeDecision) : Type 0 where
  pub sendable_scheme : sendable d.effective ≡ true
  pub normal_kept :
      d.requested ≡ PaymentScheme.normal
      → (d.effective ≡ PaymentScheme.normal) × (d.downgraded ≡ false)
  pub instant_kept :
      d.requested ≡ PaymentScheme.instant
      → (d.effective ≡ PaymentScheme.instant) × (d.fallback ≡ none)
  pub reserve :
      (d.fallback ≡ some PaymentScheme.normal)
      ↔ ((d.requested ≡ PaymentScheme.instant_or_normal) × (d.effective ≡ PaymentScheme.instant))
  pub downgrade :
      (d.downgraded ≡ true)
      ↔ ((d.requested ≡ PaymentScheme.instant_or_normal) × (d.effective ≡ PaymentScheme.normal))
  pub within : d.effective ≡ PaymentScheme.instant → RespectsCeiling p i

-- The decisions that `resolve` can make.
module _ (p : SchemeProfiles) (i : Instruction) (per_transaction : Bool) where
  plain-Decided :
      (origin : Reason)
      → Decided p i (record {
        requested = PaymentScheme.normal;
        effective = PaymentScheme.normal;
        fallback = none;
        reason = origin;
        per_transaction = per_transaction;
        downgraded = false;
      })
  unfolding sendable
  plain-Decided origin = record {
    sendable_scheme = refl;
    normal_kept = λ _. (refl, refl);
    instant_kept = λ e. cc;
    reserve = (λ e. cc, λ e. cc (e.0));
    downgrade = (λ e. cc, λ e. cc (e.0));
    within = λ e. cc;
  }

  downgraded_to_normal-Decided :
      (reason : Reason)
      → Decided p i (downgraded_to_normal PaymentScheme.instant_or_normal reason per_transaction)
  unfolding sendable downgraded_to_normal
  downgraded_to_normal-Decided reason = record {
    sendable_scheme = refl;
    normal_kept = λ e. cc;
    instant_kept = λ e. cc;
    reserve = (λ e. cc, λ e. cc (e.1));
    downgrade = (λ e. (refl, refl), λ e. refl);
    within = λ e. cc;
  }

  instant-Decided :
      (origin : Reason)
      → RespectsCeiling p i
      → Decided p i (sent_as_instant PaymentScheme.instant origin per_transaction)
  unfolding sendable sent_as_instant
  instant-Decided origin h = record {
    sendable_scheme = refl;
    normal_kept = λ e. cc;
    instant_kept = λ e. (refl, refl);
    reserve = (λ e. cc, λ e. cc (e.0));
    downgrade = (λ e. cc, λ e. cc (e.1));
    within = λ e. h;
  }

  instant_or_normal-Decided :
      (origin : Reason)
      → RespectsCeiling p i
      → Decided p i (sent_as_instant PaymentScheme.instant_or_normal origin per_transaction)
  unfolding sendable sent_as_instant
  instant_or_normal-Decided origin h = record {
    sendable_scheme = refl;
    normal_kept = λ e. cc;
    instant_kept = λ e. cc;
    reserve = (λ e. (refl, refl), λ e. refl);
    downgrade = (λ e. cc, λ e. cc (e.1));
    within = λ e. h;
  }

-- What an attempt at a decision means.
abbrev Settles : SchemeProfiles → Instruction → Attempted SchemeDecision → Type 0
Settles p i (value d) = Decided p i d
Settles p i (raised e) = Unit

pub Within-over_ceiling :
    (configured : SchemeProfile) (ts : List Transfer) (o : Option Decimal) (limit : Decimal)
    → over_ceiling o ts ≡ []
    → o ≡ some limit
    → Within limit ts
Within-over_ceiling configured ts none limit h e = cc
Within-over_ceiling configured ts (some l) limit h e =
    let same : l ≡ limit = cc in subst (λ m. Within m ts) same (Within-over l 0 ts h)

module _ (p : SchemeProfiles) (i : Instruction) (per_transaction : Bool) (origin : Reason) where
  below_ceiling-Settles :
      (configured : SchemeProfile) (above : List ℕ)
      → p.instant_profile ≡ some configured
      → over_ceiling configured.max_amount i.transactions ≡ above
      → Settles p i (below_ceiling PaymentScheme.instant origin per_transaction above)
        × Settles p i (below_ceiling PaymentScheme.instant_or_normal origin per_transaction above)
  unfolding same_scheme
  below_ceiling-Settles configured [] e h =
      let respected : RespectsCeiling p i = (
        configured,
        e,
        λ limit. Within-over_ceiling configured i.transactions configured.max_amount limit h,
      ) in
      (
        instant-Decided p i per_transaction origin respected,
        instant_or_normal-Decided p i per_transaction origin respected,
      )
  below_ceiling-Settles configured (k ∷ more) e h =
      (tt, downgraded_to_normal-Decided p i per_transaction Reason.preflight_ceiling)

  pre_flight-Settles :
      (o : Option SchemeProfile)
      → p.instant_profile ≡ o
      → Settles p i (pre_flight PaymentScheme.instant i.transactions per_transaction origin o)
        × Settles p i
            (pre_flight PaymentScheme.instant_or_normal i.transactions per_transaction origin o)
  unfolding same_scheme
  pre_flight-Settles none e =
      (tt, downgraded_to_normal-Decided p i per_transaction Reason.preflight_no_instant)
  pre_flight-Settles (some configured) e = below_ceiling-Settles configured _ e refl

  resolve_scheme-Settles :
      (scheme : PaymentScheme) → Settles p i (resolve_scheme p i scheme per_transaction origin)
  unfolding resolve_scheme
  resolve_scheme-Settles PaymentScheme.normal = plain-Decided p i per_transaction origin
  resolve_scheme-Settles PaymentScheme.instant = (pre_flight-Settles p.instant_profile refl).0
  resolve_scheme-Settles PaymentScheme.instant_or_normal =
      (pre_flight-Settles p.instant_profile refl).1

resolve-Settles : (p : SchemeProfiles) (i : Instruction) → Settles p i (resolve p i)
unfolding resolve
resolve-Settles p i = elim (requested_scheme p i) as (λ r. Settles p i (resolve_for p i r)) [
  | raised e ↦ tt
  | value scheme ↦ resolve_scheme-Settles p i (names_per_transaction i) (origin_of i) scheme
]

-- Every decision sends a sendable scheme. A request for normal stays normal and one for instant goes
-- as instant with nothing in reserve. Normal is in reserve exactly for an instant_or_normal that
-- goes as instant, and a decision is a downgrade exactly for one that goes as normal. What goes as
-- instant has a configured instant profile whose ceiling, if it has one, no amount exceeds.
pub resolve-Decided :
    (p : SchemeProfiles) (i : Instruction) (d : SchemeDecision)
    → resolve p i ≡ value d
    → Decided p i d
resolve-Decided p i d h = rw h at (resolve-Settles p i)
