-- ===== src/Schemes/Resolve/Refusals.antt =====
-- When `resolve` of painfree/schemes.py refuses, and what the transactions of a message must agree on.
use painfree_ebics_middlewar.Prelude.{
  ℕ, suc, Bool, true, false, Bool-cases, all, All, Option, none, some, List, [], ◌∷◌, Decimal, ◌≡◌,
  refl, subst, sym, ◌∙◌, ◌↔◌, inl, inr, arith,
}
use painfree_ebics_middlewar.Schemes.Profiles.{
  PaymentScheme, same_scheme, wants_instant, mixed, Attempted, value, raised, SchemeProfile,
  SchemeProfiles,
}
use painfree_ebics_middlewar.Schemes.Resolve.{
  Transfer, Instruction, SchemeDecision, Reason, wanted, message_scheme, requested_scheme, pick,
  over, over_ceiling, below_ceiling, pre_flight, origin_of, downgraded_to_normal, sent_as_instant,
  resolve_scheme, resolve, names_per_transaction,
}
use painfree_ebics_middlewar.Schemes.Resolve.Laws.{
  same_scheme→eq, Within, Within-over_ceiling, RespectsCeiling,
}

over-Within :
    (limit : Decimal) (n : ℕ) (ts : List Transfer) → Within limit ts → over limit n ts ≡ []
unfolding over
over-Within limit n [] h = refl
over-Within limit n (t ∷ ts) h = rw (h.0) (over-Within limit (suc n) ts h.1)

same_scheme_refl : (a : PaymentScheme) → same_scheme a a ≡ true
unfolding same_scheme
same_scheme_refl a = ground arith

agree→All :
    (message s : PaymentScheme) (ts : List Transfer)
    → all (λ u. same_scheme s (wanted message u)) ts ≡ true
    → All (λ u. wanted message u ≡ s) ts
agree→All message s [] h = tt
agree→All message s (t ∷ ts) h = (
  sym (same_scheme→eq s (wanted message t) (ground arith)),
  agree→All message s ts (ground arith),
)

All→agree :
    (message s : PaymentScheme) (ts : List Transfer)
    → All (λ u. wanted message u ≡ s) ts
    → all (λ u. same_scheme s (wanted message u)) ts ≡ true
All→agree message s [] h = refl
All→agree message s (t ∷ ts) h = rw (h.0, same_scheme_refl s) (All→agree message s ts h.1)

differ_absurd :
    (message first : PaymentScheme) (ts : List Transfer) (s : PaymentScheme)
    → s ≡ first
    → All (λ u. wanted message u ≡ s) ts
    → all (λ u. same_scheme first (wanted message u)) ts ≡ false
    → ⊥
differ_absurd message first ts s same h differ =
    let agreed = All→agree message s ts h in
    let agreed' = subst (λ x. all (λ u. same_scheme x (wanted message u)) ts ≡ true) same agreed in
    cc

pick_unanimous :
    (message : PaymentScheme) (t : Transfer) (ts : List Transfer) (s : PaymentScheme)
    → (pick message (t ∷ ts) ≡ value s) ↔ All (λ u. wanted message u ≡ s) (t ∷ ts)
pick_unanimous message t ts s =
    let first = wanted message t in
    elim (Bool-cases (all (λ u. same_scheme first (wanted message u)) ts)) [
      | inl agree ↦ (
        λ e.
            let same : first ≡ s = (let e2 : value first ≡ value s = rw agree at e in cc) in
            (
              same,
              subst (λ x. All (λ u. wanted message u ≡ x) ts) same
                  (agree→All message first ts agree),
            ),
        λ h. rw (agree, h.0) refl,
      )
      | inr differ ↦ (
        λ e. let e2 : raised mixed ≡ value s = rw differ at e in cc,
        λ h. absurd (differ_absurd message first ts s (sym (h.0)) h.1 differ),
      )
    ]

-- A message that has transactions gets a scheme exactly if each of them asks for that one, where a
-- transaction that names none asks for the message's, or else the connection's default.
requested_scheme_unanimous :
    (p : SchemeProfiles) (named : Option PaymentScheme) (t : Transfer) (ts : List Transfer)
    (s : PaymentScheme)
    → let i : Instruction = record { scheme = named; transactions = t ∷ ts } in
      (requested_scheme p i ≡ value s) ↔ All (λ u. wanted (message_scheme p i) u ≡ s) (t ∷ ts)
unfolding requested_scheme
requested_scheme_unanimous p named t ts s =
    pick_unanimous (message_scheme p (record { scheme = named; transactions = t ∷ ts })) t ts s

-- Nothing is over the ceiling exactly if the ceiling is respected.
over_ceiling_none :
    (o : Option Decimal) (ts : List Transfer)
    → ((limit : Decimal) → o ≡ some limit → Within limit ts)
    → over_ceiling o ts ≡ []
over_ceiling_none none ts h = refl
over_ceiling_none (some limit) ts h = over-Within limit 0 ts (h limit refl)

same_profile : (a b : SchemeProfile) → (Option.some a) ≡ some b → a ≡ b
same_profile a b e = cc

over_ceiling_respected :
    (p : SchemeProfiles) (i : Instruction) (c : SchemeProfile)
    → p.instant_profile ≡ some c
    → RespectsCeiling p i
    → over_ceiling c.max_amount i.transactions ≡ []
over_ceiling_respected p i c e (configured, found, within) =
    let same : configured ≡ c = same_profile configured c (sym found ∙ e) in
    subst (λ x. over_ceiling x.max_amount i.transactions ≡ []) same
      (over_ceiling_none configured.max_amount i.transactions within)

-- What the checks decide for a scheme that wants instant.
abbrev Outcome : SchemeProfiles → Instruction → Attempted SchemeDecision → Type 0
Outcome p i r =
    (d : SchemeDecision) × (r ≡ value d)
    × ((d.effective ≡ PaymentScheme.instant) ↔ RespectsCeiling p i)

abbrev Sent : SchemeProfiles → Instruction → Attempted SchemeDecision → Type 0
Sent p i r = ((d : SchemeDecision) × (r ≡ value d)) ↔ RespectsCeiling p i

module _ (p : SchemeProfiles) (i : Instruction) (per_transaction : Bool) (origin : Reason) where
  below_ceiling_outcome :
      (c : SchemeProfile) (above : List ℕ)
      → p.instant_profile ≡ some c
      → over_ceiling c.max_amount i.transactions ≡ above
      → Outcome p i (below_ceiling PaymentScheme.instant_or_normal origin per_transaction above)
        × Sent p i (below_ceiling PaymentScheme.instant origin per_transaction above)
  unfolding same_scheme sent_as_instant downgraded_to_normal
  below_ceiling_outcome c [] e h =
      let respected : RespectsCeiling p i =
        (c, e, λ limit. Within-over_ceiling c i.transactions c.max_amount limit h) in
      ((_, refl, (λ _. respected, λ _. refl)), (λ _. respected, λ _. (_, refl)))
  below_ceiling_outcome c (k ∷ more) e h = (
    (_, refl, (λ x. cc, λ r. let none_above = over_ceiling_respected p i c e r in cc)),
    (λ x. cc (x.1), λ r. let none_above = over_ceiling_respected p i c e r in cc),
  )

  pre_flight_outcome :
      (o : Option SchemeProfile)
      → p.instant_profile ≡ o
      → Outcome p i
          (pre_flight PaymentScheme.instant_or_normal i.transactions per_transaction origin o)
        × Sent p i (pre_flight PaymentScheme.instant i.transactions per_transaction origin o)
  unfolding same_scheme downgraded_to_normal
  pre_flight_outcome none e = ((_, refl, (λ x. cc, λ r. cc (r.1))), (λ x. cc (x.1), λ r. cc (r.1)))
  pre_flight_outcome (some c) e = below_ceiling_outcome c _ e refl

-- An instruction for instant_or_normal is never refused, and goes as instant exactly if there is an
-- instant profile whose ceiling, if it has one, no amount exceeds.
pub resolve_optional :
    (p : SchemeProfiles) (i : Instruction)
    → requested_scheme p i ≡ value PaymentScheme.instant_or_normal
    → Outcome p i (resolve p i)
unfolding resolve resolve_scheme wants_instant
resolve_optional p i h =
    rw h (pre_flight_outcome p i (names_per_transaction i) (origin_of i) p.instant_profile refl).0

-- An instruction for instant is decided, and not refused, exactly if there is an instant profile whose
-- ceiling, if it has one, no amount exceeds.
pub resolve_instant :
    (p : SchemeProfiles) (i : Instruction)
    → requested_scheme p i ≡ value PaymentScheme.instant
    → Sent p i (resolve p i)
unfolding resolve resolve_scheme wants_instant
resolve_instant p i h =
    rw h (pre_flight_outcome p i (names_per_transaction i) (origin_of i) p.instant_profile refl).1
