-- ===== src/Ebics/Responses/Accepted.antt =====
-- A response that says 000000 at both levels.
use painfree_ebics_middlewar.Prelude.{
  text_eq, strip, lstrip, is_space, true, text, false, none, some, ◌≡◌, refl, ◌⊎◌, inl, inr,
}
use painfree_ebics_middlewar.Ebics.Errors.{ok}
use painfree_ebics_middlewar.Ebics.ReturnCodes.{
  ReturnCode, Family, Disposition, named, table, find_code, lookup, is_ok, needs_recovery,
  ends_transaction, raises,
}
use painfree_ebics_middlewar.Ebics.Responses.Status.{
  BankResponse, classify, raise_for_status, status_needs_recovery, status_ends_transaction,
}

pub record IsOk (r : BankResponse) : Type 0 where
  pub header : r.header_return_code ≡ some (text "000000")
  pub body : (r.body_return_code ≡ none) ⊎ (r.body_return_code ≡ some (text "000000"))

abbrev ebics_ok : ReturnCode
ebics_ok = record {
  code = text "000000";
  name = some (text "EBICS_OK");
  family = Family.success;
  disposition = Disposition.success;
}

lookup_ok : lookup (some (text "000000")) ≡ some ebics_ok
unfolding lookup named find_code table text_eq strip lstrip is_space
lookup_ok = refl

lookup-none : lookup none ≡ none
unfolding lookup find_code
lookup-none = refl

pub IsOk-needs_recovery : {r : BankResponse} → IsOk r → status_needs_recovery (classify r) ≡ false
unfolding status_needs_recovery classify needs_recovery
IsOk-needs_recovery h = elim h.body [
  | inl e ↦ rw (h.header, e, lookup_ok, lookup-none)
  | inr e ↦ rw (h.header, e, lookup_ok)
]

pub IsOk-ends_transaction :
    {r : BankResponse} → IsOk r → status_ends_transaction (classify r) ≡ false
unfolding status_ends_transaction classify ends_transaction
IsOk-ends_transaction h = elim h.body [
  | inl e ↦ rw (h.header, e, lookup_ok, lookup-none)
  | inr e ↦ rw (h.header, e, lookup_ok)
]

pub IsOk-raise_for_status : {r : BankResponse} → IsOk r → raise_for_status (classify r) ≡ ok tt
unfolding raise_for_status classify is_ok raises
IsOk-raise_for_status h = elim h.body [
  | inl e ↦ rw (h.header, e, lookup_ok, lookup-none)
  | inr e ↦ rw (h.header, e, lookup_ok)
]

-- A response that offers to resume: EBICS_TX_RECOVERY_SYNC at the technical level.
pub record IsSync (r : BankResponse) : Type 0 where
  pub header : r.header_return_code ≡ some (text "061101")

abbrev tx_recovery_sync : ReturnCode
tx_recovery_sync = record {
  code = text "061101";
  name = some (text "EBICS_TX_RECOVERY_SYNC");
  family = Family.transaction;
  disposition = Disposition.recoverable;
}

lookup_sync : lookup (some (text "061101")) ≡ some tx_recovery_sync
unfolding lookup named find_code table text_eq strip lstrip is_space
lookup_sync = refl

pub IsSync-needs_recovery :
    {r : BankResponse} → IsSync r → status_needs_recovery (classify r) ≡ true
unfolding status_needs_recovery classify needs_recovery
IsSync-needs_recovery h = rw (h.header, lookup_sync)

-- A response that ends a download: the acknowledgement was taken.
pub record IsAcknowledged (r : BankResponse) : Type 0 where
  pub header : r.header_return_code ≡ some (text "011000")
  pub body : (r.body_return_code ≡ none) ⊎ (r.body_return_code ≡ some (text "000000"))

abbrev postprocess_done : ReturnCode
postprocess_done = record {
  code = text "011000";
  name = some (text "EBICS_DOWNLOAD_POSTPROCESS_DONE");
  family = Family.transaction;
  disposition = Disposition.completed;
}

lookup-postprocess_done : lookup (some (text "011000")) ≡ some postprocess_done
unfolding lookup named find_code table text_eq strip lstrip is_space
lookup-postprocess_done = refl

-- Its three readings: no recovery, no refusal, the end.
pub IsAcknowledged-status :
    {r : BankResponse}
    → IsAcknowledged r
    → (status_needs_recovery (classify r) ≡ false)
      × (raise_for_status (classify r) ≡ ok tt)
      × (status_ends_transaction (classify r) ≡ true)
unfolding status_needs_recovery raise_for_status status_ends_transaction classify needs_recovery
    ends_transaction raises is_ok
IsAcknowledged-status h = elim h.body [
  | inl e ↦ rw (h.header, e, lookup-postprocess_done, lookup-none) (refl, refl, refl)
  | inr e ↦ rw (h.header, e, lookup-postprocess_done, lookup_ok) (refl, refl, refl)
]
