-- ===== src/Sps/Admissible.antt =====
-- What the rules of painfree/sps.py on an account and its reference come to.
use painfree_ebics_middlewar.Prelude.{
  ℕ, ◌≤◌, ltb, neg_part, Decimal, lt_decimal, zero_decimal, Text, text, Bool, true, false, not,
  Bool-cases, Option, Option-cases, none, some, List, [], ◌∷◌, ◌++◌, ◌≡◌, ◌↔◌, refl, inl, inr,
  arith,
}
use painfree_ebics_middlewar.Sps.Accounts.{
  Rule, currency_format, amount_positive, amount_minor_units, reference_exclusive,
  reference_missing, qrr_requires_qr_iban, currency_qr_bill, scor_forbidden_with_qr_iban,
  is_qr_iban, qrr_failure, scor_failure,
}
use painfree_ebics_middlewar.Sps.Rules.{
  RuleFailure, ReferenceType, qrr, scor, without, reference_type_of, is_given, given,
  is_qr_bill_currency, when, broken_rule, failure, typed_failures, failures_of, reference_failures,
  amount_failures, is_currency_code, minor_units,
}

module _ (creditor_iban : Text) (reference unstructured : Option Text) (currency : Text) where
  -- What each kind of reference asks for.
  abbrev Allowed : ReferenceType → Type 0
  Allowed qrr =
      (is_given reference ≡ true)
      × (is_given unstructured ≡ false)
      × (qrr_failure (given reference) ≡ none)
      × (is_qr_iban creditor_iban ≡ true)
      × (is_qr_bill_currency currency ≡ true)
  Allowed scor =
      (is_given reference ≡ true)
      × (is_given unstructured ≡ false)
      × (scor_failure (given reference) ≡ none)
      × (is_qr_iban creditor_iban ≡ false)
  Allowed without = (is_given reference ≡ false) × (is_qr_iban creditor_iban ≡ false)

  abbrev pub Admissible : Text → Type 0
  Admissible reference_type =
      (t : ReferenceType) × (reference_type_of reference_type ≡ some t) × Allowed t

-- Nothing fails in one part and nothing in the next.
append_nil : (xs ys : List RuleFailure) → (xs ++ ys ≡ []) → (xs ≡ []) × (ys ≡ [])
append_nil [] ys h = (refl, h)
append_nil (x ∷ xs) ys h = cc

when_nil : (b : Bool) (f : RuleFailure) → when b f ≡ [] → b ≡ false
when_nil false f h = refl
when_nil true f h = cc

broken_rule_nil : (location : Text) (o : Option Rule) → broken_rule location o ≡ [] → o ≡ none
broken_rule_nil location none h = refl
broken_rule_nil location (some r) h = cc

not-false : (b : Bool) → not b ≡ false → b ≡ true
not-false true h = refl
not-false false h = cc

module _ (creditor_iban : Text) (reference unstructured : Option Text)
    (currency location : Text) where
  qrr_parts :
      when
            (is_given unstructured)
            (failure location (text ".remittance_information") reference_exclusive)
          ++ (broken_rule location (qrr_failure (given reference))
              ++ (when
                    (not (is_qr_iban creditor_iban))
                    (failure location (text ".creditor_iban") qrr_requires_qr_iban)
                  ++ when
                      (not (is_qr_bill_currency currency))
                      (failure location (text ".currency") currency_qr_bill)))
        ≡ []
      → (is_given unstructured ≡ false)
        × (qrr_failure (given reference) ≡ none)
        × (is_qr_iban creditor_iban ≡ true)
        × (is_qr_bill_currency currency ≡ true)
  qrr_parts h =
      let (exclusive, rest) = append_nil _ _ h in
      let (digits, rest') = append_nil _ _ rest in
      let (account, denomination) = append_nil _ _ rest' in
      (
        when_nil _ _ exclusive,
        broken_rule_nil location _ digits,
        not-false _ (when_nil _ _ account),
        not-false _ (when_nil _ _ denomination),
      )

  scor_parts :
      when
            (is_given unstructured)
            (failure location (text ".remittance_information") reference_exclusive)
          ++ (broken_rule location (scor_failure (given reference))
              ++ when
                  (is_qr_iban creditor_iban)
                  (failure location (text ".reference.type") scor_forbidden_with_qr_iban))
        ≡ []
      → (is_given unstructured ≡ false)
        × (scor_failure (given reference) ≡ none)
        × (is_qr_iban creditor_iban ≡ false)
  scor_parts h =
      let (exclusive, rest) = append_nil _ _ h in
      let (digits, account) = append_nil _ _ rest in
      (when_nil _ _ exclusive, broken_rule_nil location _ digits, when_nil _ _ account)

  missing : failure location (text ".reference.reference") reference_missing ∷ [] ≡ [] → ⊥
  missing h = cc

  typed_failures-Allowed :
      (t : ReferenceType)
      → typed_failures creditor_iban reference unstructured currency location t ≡ []
      → Allowed creditor_iban reference unstructured currency t
  unfolding typed_failures
  typed_failures-Allowed without h =
      let (unexpected, wrong_account) =
        append_nil (when (is_given reference) _) (when (is_qr_iban creditor_iban) _) h in
      (
        when_nil (is_given reference) _ unexpected,
        when_nil (is_qr_iban creditor_iban) _ wrong_account,
      )
  typed_failures-Allowed qrr h = elim (Bool-cases (is_given reference)) [
    | inl e ↦ let (a, b, c, d) = qrr_parts (rw e at h) in (e, a, b, c, d)
    | inr e ↦ absurd (missing (rw e at h))
  ]
  typed_failures-Allowed scor h = elim (Bool-cases (is_given reference)) [
    | inl e ↦ let (a, b, c) = scor_parts (rw e at h) in (e, a, b, c)
    | inr e ↦ absurd (missing (rw e at h))
  ]

  Allowed-typed_failures :
      (t : ReferenceType)
      → Allowed creditor_iban reference unstructured currency t
      → typed_failures creditor_iban reference unstructured currency location t ≡ []
  unfolding typed_failures
  Allowed-typed_failures without h = rw (h.0, h.1) refl
  Allowed-typed_failures qrr h = rw (h.0, h.1, h.2, h.3, h.4) refl
  Allowed-typed_failures scor h = rw (h.0, h.1, h.2, h.3) refl

-- The rules find nothing wrong exactly if the type is one of the three and the reference is as the type
-- asks: QRR has a reference with a right check digit, a QR-IBAN, Swiss francs or euros, and no free
-- text; SCOR has a right reference, an account that is not a QR-IBAN, and no free text; NONE has no
-- reference and an account that is not a QR-IBAN.
pub reference_failures_none :
    (creditor_iban reference_type : Text) (reference unstructured : Option Text)
    (currency location : Text)
    → (reference_failures creditor_iban reference unstructured currency location reference_type
        ≡ [])
      ↔ Admissible creditor_iban reference unstructured currency reference_type
unfolding reference_failures
reference_failures_none creditor_iban reference_type reference unstructured currency location =
    elim (Option-cases (reference_type_of reference_type)) [
      | inl e ↦ (λ h. absurd (refused (rw e at h)), λ (t, same, allowed). cc)
      | inr (t, e) ↦ (
        λ h. (
          t,
          e,
          typed_failures-Allowed creditor_iban reference unstructured currency location t
              (rw e at h),
        ),
        λ (t', same, allowed). rw same (
            Allowed-typed_failures creditor_iban reference unstructured currency location t'
              allowed),
      )
    ]
  where
    refused : failures_of creditor_iban reference unstructured currency location none ≡ [] → ⊥
    refused h = cc

-- An amount is accepted exactly if the currency has the form of a code, the amount is above zero, and
-- it has no more decimal places than the currency has minor units.
pub amount_failures_none :
    (amount : Decimal) (currency location : Text)
    → (amount_failures amount currency location ≡ []) ↔ (
        (is_currency_code currency ≡ true)
        × (lt_decimal zero_decimal amount ≡ true)
        × (neg_part amount.exponent ≤ minor_units currency))
unfolding amount_failures
amount_failures_none amount currency location = elim (Bool-cases (is_currency_code currency)) [
  | inl e ↦ (
    λ h.
        let (sign, places) = parts (rw e at h) in
        (
          e,
          not-false _ (when_nil _ _ sign),
          at_most (minor_units currency) (neg_part amount.exponent) (when_nil _ _ places),
        ),
    λ h. rw (e, h.1, not_more (minor_units currency) (neg_part amount.exponent) h.2) refl,
  )
  | inr e ↦ (λ h. absurd (badly (rw e at h)), λ h. cc (h.0))
]
  where
    parts :
        when
              (not (lt_decimal zero_decimal amount))
              (failure location (text ".amount") amount_positive)
            ++ when
                (ltb (minor_units currency) (neg_part amount.exponent))
                (failure location (text ".amount") amount_minor_units)
          ≡ []
        → (when
              (not (lt_decimal zero_decimal amount))
              (failure location (text ".amount") amount_positive)
            ≡ [])
          × (when
                (ltb (minor_units currency) (neg_part amount.exponent))
                (failure location (text ".amount") amount_minor_units)
              ≡ [])
    parts h = append_nil _ _ h

    badly : failure location (text ".currency") currency_format ∷ [] ≡ [] → ⊥
    badly h = cc

    at_most : (a b : ℕ) → ltb a b ≡ false → b ≤ a
    at_most a b h = ground arith

    not_more : (a b : ℕ) → b ≤ a → ltb a b ≡ false
    not_more a b h = ground arith
