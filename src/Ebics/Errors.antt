-- ===== src/Ebics/Errors.antt =====
-- painfree/ebics3/errors.py: what the engine raises, as values. Each place that raises has a
-- constructor of its own under the exception's class, in place of the message.
use painfree_ebics_middlewar.Prelude.{ℕ, Text, ℤ, Bool, true, false, Option}

-- `TransactionError`.
pub data TransactionFault : Type 0 where
  bad_signature : (digest_ok signature_ok : Bool) → TransactionFault
  no_transaction_id negative_recovery_point not_initialised no_secured_data : TransactionFault
  unexpected_segment : (expected : ℕ) → (got : ℤ) → TransactionFault
  no_order_data : (segment : ℕ) → TransactionFault
  no_transaction_key no_encryption_key : TransactionFault

-- `DocumentError`; `bad_base64` is the `binascii.Error` that passes through.
pub data DocumentFault : Type 0 where
  not_a_response bad_count bad_base64 : DocumentFault

-- `RequestError`.
pub data RequestFault : Type 0 where
  size_not_positive size_not_aligned : RequestFault
  bad_code bad_length bad_msg_name bad_container bad_number : RequestFault

-- The fields of `BankRefusedError`.
pub record Refusal : Type 0 where
  pub return_code : Text
  pub name : Option Text
  pub report_text : Option Text
  pub retryable : Bool
  pub terminal : Bool

pub data Error : Type 0 where
  bank_refused : Refusal → Error
  transaction : TransactionFault → Error
  document : DocumentFault → Error
  request : RequestFault → Error

pub data Result {ℓ} (A : Type ℓ) : Type ℓ where
  ok : A → Result A
  err : Error → Result A

-- A call that may raise, and what is done with its result.
infixl 5 ◌>>=◌ ◌>>◌
abbrev pub ◌>>=◌ {ℓ κ} : {T : Type ℓ} {V : Type κ} → Result T → (T → Result V) → Result V
err raised >>= rest = err raised
ok value >>= rest = rest value

abbrev pub ◌>>◌ {κ} : {V : Type κ} → Result (Unit {0}) → Result V → Result V
check >> rest = check >>= λ passed. rest

-- `if not condition: raise e`.
abbrev pub ensure : Bool → Error → Result (Unit {0})
ensure b e = elim b [ true ↦ ok tt | false ↦ err e ]
