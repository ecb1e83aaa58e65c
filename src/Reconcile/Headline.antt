-- ===== src/Reconcile/Headline.antt =====
-- On what ground `resolve` of painfree/reconcile.py decides.
use painfree_ebics_middlewar.Prelude.{
  Text, Bool, true, false, Bool-cases, is_some, Option, none, some, Option-cases, List, [], ◌∷◌,
  All, all, ◌≡◌, refl, ◌∙◌, sym, ◌⊎◌, inl, inr,
}
use painfree_ebics_middlewar.Orders.Rows.{OrderState}
use painfree_ebics_middlewar.Reconcile.Codes.{
  Disposition, StatusCode, status_of, outcome_of, takes, is_refusal,
}
use painfree_ebics_middlewar.Reconcile.Reports.{StatusReport}
use painfree_ebics_middlewar.Reconcile.Decide.{
  passes, agreed, unanimous, transaction_statuses, payment_statuses, decisive, resolve,
}

-- A status that is known, with a disposition that passes the test.
abbrev pub Says : (Disposition → Bool) → Option Text → Type 0
Says test s = (c : StatusCode) × (status_of s ≡ some c) × (test c.disposition ≡ true)

-- A level where something is reported, and where every status is such a one.
abbrev pub AllSay : (Disposition → Bool) → List (Option Text) → Type 0
AllSay test [] = ⊥
AllSay test (s ∷ statuses) = All (Says test) (s ∷ statuses)

-- The group says it; or it says nothing, and a level below says it with one voice.
abbrev pub Reported : (Disposition → Bool) → StatusReport → Type 0
Reported test p =
    ((group : Text) × (p.status ≡ some group) × Says test (some group))
    ⊎ ((p.status ≡ none)
        × (AllSay test (transaction_statuses p) ⊎ AllSay test (payment_statuses p)))

passes-Says :
    (test : Disposition → Bool) (s : Option Text) → passes test (status_of s) ≡ true → Says test s
passes-Says test s h = elim (Option-cases (status_of s)) [
  | inl e ↦ let no : false ≡ true = rw e at h in cc
  | inr (c, e) ↦ (c, e, rw e at h)
]

all-AllSay :
    (test : Disposition → Bool) (statuses : List (Option Text))
    → all (λ s. passes test (status_of s)) statuses ≡ true
    → All (Says test) statuses
all-AllSay test [] h = tt
all-AllSay test (s ∷ statuses) h = elim (Bool-cases (passes test (status_of s))) [
  | inl e ↦ (passes-Says test s e, all-AllSay test statuses (rw e at h))
  | inr e ↦ let no : false ≡ true = rw e at h in cc
]

takes-is_refusal : (d : Disposition) → takes d ≡ true → is_refusal d ≡ true → ⊥
takes-is_refusal Disposition.accepts h k = cc
takes-is_refusal Disposition.refuses h k = cc
takes-is_refusal Disposition.partial h k = cc
takes-is_refusal Disposition.undecided h k = cc

-- The first status of a level that agrees is the answer, and all of the level is on one side.
agreed-sides :
    (s : Option Text) (statuses : List (Option Text)) (c : StatusCode)
    → agreed (s ∷ statuses) ≡ some c
    → (status_of s ≡ some c)
      × (All (Says takes) (s ∷ statuses) ⊎ All (Says is_refusal) (s ∷ statuses))
unfolding agreed
agreed-sides s statuses c h = elim (Bool-cases (all (λ t. is_some (status_of t)) (s ∷ statuses))) [
  | inr e ↦ let no : none ≡ some c = rw e at h in cc
  | inl e ↦ elim (Bool-cases (all (λ t. passes takes (status_of t)) (s ∷ statuses))) [
    | inl up ↦ (rw (e, up) at h, inl (all-AllSay takes (s ∷ statuses) up))
    | inr up ↦ elim (Bool-cases (all (λ t. passes is_refusal (status_of t)) (s ∷ statuses))) [
      | inl down ↦ (rw (e, up, down) at h, inr (all-AllSay is_refusal (s ∷ statuses) down))
      | inr down ↦ let no : none ≡ some c = rw (e, up, down) at h in cc
    ]
  ]
]

-- The code that a status says is the one that it has.
same_code :
    (test : Disposition → Bool) (s : Option Text) (c : StatusCode)
    → status_of s ≡ some c
    → Says test s
    → test c.disposition ≡ true
same_code test s c e (d, f, holds) = let same : some d ≡ some c = sym f ∙ e in cc

agreed-takes :
    (statuses : List (Option Text)) (c : StatusCode)
    → agreed statuses ≡ some c
    → takes c.disposition ≡ true
    → AllSay takes statuses
unfolding agreed
agreed-takes [] c h t = let no : none ≡ some c = h in cc
agreed-takes (s ∷ statuses) c h t = elim ((agreed-sides s statuses c h).1) [
  | inl up ↦ up
  | inr down ↦ absurd (
      takes-is_refusal c.disposition t
        (same_code is_refusal s c ((agreed-sides s statuses c h).0) down.0))
]

agreed-is_refusal :
    (statuses : List (Option Text)) (c : StatusCode)
    → agreed statuses ≡ some c
    → is_refusal c.disposition ≡ true
    → AllSay is_refusal statuses
unfolding agreed
agreed-is_refusal [] c h t = let no : none ≡ some c = h in cc
agreed-is_refusal (s ∷ statuses) c h t = elim ((agreed-sides s statuses c h).1) [
  | inl up ↦ absurd (
      takes-is_refusal c.disposition (same_code takes s c ((agreed-sides s statuses c h).0) up.0) t)
  | inr down ↦ down
]

-- From the code that decides to the ground.
module _ (test : Disposition → Bool)
    (agreed-AllSay : (statuses : List (Option Text)) (c : StatusCode)
      → agreed statuses ≡ some c
      → test c.disposition ≡ true
      → AllSay test statuses) where
  unanimous-AllSay :
      (payments transactions : List (Option Text)) (c : StatusCode)
      → unanimous payments transactions ≡ some c
      → test c.disposition ≡ true
      → AllSay test transactions ⊎ AllSay test payments
  unfolding unanimous
  unanimous-AllSay payments transactions c h t = elim (Option-cases (agreed transactions)) [
    | inl e ↦ inr (agreed-AllSay payments c (rw e at h) t)
    | inr (d, e) ↦ inl (agreed-AllSay transactions c (e ∙ (rw e at h)) t)
  ]

  decisive-Reported :
      (p : StatusReport) (c : StatusCode)
      → (decisive p).0 ≡ some c
      → test c.disposition ≡ true
      → Reported test p
  unfolding decisive
  decisive-Reported p c h t = elim (Option-cases p.status) [
    | inl e ↦
        inr (e, unanimous-AllSay (payment_statuses p) (transaction_statuses p) c (rw e at h) t)
    | inr (group, e) ↦ inl (group, e, (c, rw e at h, t))
  ]

is_refusal-rejected :
    (d : Disposition) → outcome_of d ≡ some OrderState.rejected → is_refusal d ≡ true
is_refusal-rejected Disposition.accepts h = cc
is_refusal-rejected Disposition.refuses h = refl
is_refusal-rejected Disposition.partial h = cc
is_refusal-rejected Disposition.undecided h = cc

takes-acknowledged :
    (d : Disposition) → outcome_of d ≡ some OrderState.acknowledged → takes d ≡ true
takes-acknowledged Disposition.accepts h = refl
takes-acknowledged Disposition.refuses h = cc
takes-acknowledged Disposition.partial h = refl
takes-acknowledged Disposition.undecided h = cc

-- A report rejects an order only if the group status is a refusal, or if there is no group status and
-- every transaction that it names is refused, or every payment block, and there is one; it acknowledges
-- an order only on the same ground, with statuses that accept, in full or in part.
pub resolve-Reported :
    (p : StatusReport)
    → ((resolve p).state ≡ some OrderState.rejected → Reported is_refusal p)
      × ((resolve p).state ≡ some OrderState.acknowledged → Reported takes p)
unfolding resolve
resolve-Reported p = elim (Option-cases (decisive p).0) [
  | inl e ↦ (
    λ h. let no : none ≡ some OrderState.rejected = rw e at h in cc,
    λ h. let no : none ≡ some OrderState.acknowledged = rw e at h in cc,
  )
  | inr (c, e) ↦ (
    λ h.
        decisive-Reported is_refusal agreed-is_refusal p c e
          (is_refusal-rejected c.disposition (rw e at h)),
    λ h. decisive-Reported takes agreed-takes p c e (takes-acknowledged c.disposition (rw e at h)),
  )
]
