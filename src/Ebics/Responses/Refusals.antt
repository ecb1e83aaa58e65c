-- ===== src/Ebics/Responses/Refusals.antt =====
-- Which responses `raise_for_status` of painfree/ebics3/responses.py raises on, against what the two
-- codes say one by one.
use painfree_ebics_middlewar.Prelude.{
  Text, Bool-cases, true, false, Option, none, some, ◌≡◌, refl, ◌↔◌, ◌⊎◌, inl, inr, arith,
}
use painfree_ebics_middlewar.Ebics.Errors.{ok}
use painfree_ebics_middlewar.Ebics.ReturnCodes.{ReturnCode, is_ok, raises}
use painfree_ebics_middlewar.Ebics.Responses.Status.{ResponseStatus, raise_for_status, status_ok}

-- The technical code is neither 000000 nor a refusal, and the code of the order is a refusal.
pub record IsMasked (s : ResponseStatus) : Type 0 where
  pub technical : ReturnCode
  pub technical_is : s.technical ≡ some technical
  pub not_ok : is_ok technical ≡ false
  pub not_refused : raises technical ≡ false
  pub business : ReturnCode
  pub business_is : s.business ≡ some business
  pub refused : raises business ≡ true

abbrev status : Option ReturnCode → Option ReturnCode → Option Text → ResponseStatus
status t b words = record { technical = t; business = b; report_text = words }

not_ok_of_masking :
    (t b : ReturnCode) (words : Option Text)
    → raise_for_status (status (some t) (some b) words) ≡ ok tt
    → raises b ≡ true
    → (is_ok t ≡ false) × (raises t ≡ false)
unfolding raise_for_status raises is_ok
not_ok_of_masking t b words h k = ground arith

status_ok-of_passing :
    (t b : Option ReturnCode) (words : Option Text)
    → raise_for_status (status t b words) ≡ ok tt
    → ((r : ReturnCode) → b ≡ some r → raises r ≡ false)
    → status_ok (status t b words) ≡ true
unfolding raise_for_status status_ok raises is_ok
status_ok-of_passing none none words h k = refl
status_ok-of_passing none (some b) words h k = ground arith
status_ok-of_passing (some t) none words h k = ground arith
status_ok-of_passing (some t) (some b) words h k = ground (arith, k b refl)

not_refused_alone :
    (b : ReturnCode) (words : Option Text)
    → raise_for_status (status none (some b) words) ≡ ok tt
    → raises b ≡ false
unfolding raise_for_status raises
not_refused_alone b words h = ground arith

passing :
    (t b : Option ReturnCode) (words : Option Text)
    → raise_for_status (status t b words) ≡ ok tt
    → (status_ok (status t b words) ≡ true) ⊎ IsMasked (status t b words)
passing t none words h = inl (status_ok-of_passing t none words h (λ r e. cc))
passing none (some b) words h = inl (
    status_ok-of_passing none (some b) words h (λ r e. ground (arith, not_refused_alone b words h)))
passing (some t) (some b) words h = elim (Bool-cases (raises b)) [
  | inl k ↦
      let (a, c) = not_ok_of_masking t b words h k in
      inr (record {
        technical = t;
        technical_is = refl;
        not_ok = a;
        not_refused = c;
        business = b;
        business_is = refl;
        refused = k;
      })
  | inr k ↦ inl (status_ok-of_passing (some t) (some b) words h (λ r e. ground arith))
]

ok_passes :
    (t b : Option ReturnCode) (words : Option Text)
    → status_ok (status t b words) ≡ true
    → raise_for_status (status t b words) ≡ ok tt
unfolding raise_for_status status_ok raises is_ok
ok_passes none none words h = refl
ok_passes none (some b) words h = ground arith
ok_passes (some t) none words h = ground arith
ok_passes (some t) (some b) words h = ground arith

masked_passes : (s : ResponseStatus) → IsMasked s → raise_for_status s ≡ ok tt
unfolding raise_for_status
masked_passes s m = rw (m.technical_is, m.not_ok, m.not_refused)

-- `raise_for_status` is silent exactly when neither code is a refusal, or when the technical code is
-- a benign or recovering code other than 000000: then a refusal of the order passes unheard.
pub raise_for_status-silent :
    (s : ResponseStatus) → (raise_for_status s ≡ ok tt) ↔ ((status_ok s ≡ true) ⊎ IsMasked s)
raise_for_status-silent s = (
  passing s.technical s.business s.report_text,
  λ h. elim h [
    | inl k ↦ ok_passes s.technical s.business s.report_text k
    | inr m ↦ masked_passes s m
  ],
)
