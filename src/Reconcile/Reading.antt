-- ===== src/Reconcile/Reading.antt =====
-- One report, for a page about one order: `reading`, `Reading.for_transfer` and `Reading.unsent` of
-- painfree/reconcile.py.
pub mod Named
pub mod Said
use painfree_ebics_middlewar.Prelude.{
  ℕ, Text, text_eq, Bool, true, false, any, is_some, Option, none, some, List, [], ◌∷◌, ◌++◌, map,
  length, if◌then◌else◌,
}
use painfree_ebics_middlewar.Orders.Rows.{option_is}
use painfree_ebics_middlewar.Reconcile.Codes.{status_of, is_refusal}
use painfree_ebics_middlewar.Reconcile.Reports.{
  Reason, TransactionStatus, PaymentStatus, StatusReport, given,
}
use painfree_ebics_middlewar.Reconcile.Decide.{passes, tally}

-- Where an answer came from.
pub data Level : Type 0 where
  transaction payment group unanswered : Level

pub record Answer : Type 0 where
  pub status : Option Text
  pub level : Level
  pub reasons : List Reason
  pub accepted_at : Option Text

pub record Block : Type 0 where
  pub payment_information_id : Option Text
  pub answer : Answer
  pub transactions : ℕ
  pub accepted : ℕ
  pub rejected : ℕ

-- `by_reference` is a dictionary, as the list of its entries.
pub record Reading : Type 0 where
  pub group : Answer
  pub blocks : List Block
  pub by_reference : List (Text × Answer)
  pub named : List Text

-- `Answer.inherited`, `Answer.refused`.
abbrev pub inherited : Answer → Bool
inherited a = elim a.level [ Level.payment ↦ true | Level.group ↦ true | _ ↦ false ]

abbrev pub refused : Answer → Bool
refused a = passes is_refusal (status_of a.status)

abbrev pub entry_of : Text → List (Text × Answer) → Option Answer
entry_of key [] = none
entry_of key ((k, a) ∷ entries) = if text_eq k key then some a else entry_of key entries

-- `dict.setdefault`.
unfoldable pub set_default : Text → Answer → List (Text × Answer) → List (Text × Answer)
set_default key a entries =
    if is_some (entry_of key entries) then entries else entries ++ ((key, a) ∷ [])

abbrev pub set_given : Option Text → Answer → List (Text × Answer) → List (Text × Answer)
set_given none a entries = entries
set_given (some key) a entries = set_default key a entries

-- `Answer` of a level that says something, and of one that does not.
abbrev level_answer : Level → Option Text → List Reason → Answer
level_answer level status reasons = record {
  status = status;
  level = if is_some (given status) then level else Level.unanswered;
  reasons = reasons;
  accepted_at = none;
}

abbrev pub transaction_answer : TransactionStatus → Answer
transaction_answer t = record {
  status = t.status;
  level = Level.transaction;
  reasons = t.reasons;
  accepted_at = t.acceptance_datetime;
}

-- The entries after a transaction: the answer under each of its references.
abbrev pub enter : TransactionStatus → List (Text × Answer) → List (Text × Answer)
enter t entries =
    set_given (given t.instruction_id) (transaction_answer t)
      (set_given (given t.end_to_end_id) (transaction_answer t) entries)

abbrev pub enter_all : List TransactionStatus → List (Text × Answer) → List (Text × Answer)
enter_all [] entries = entries
enter_all (t ∷ ts) entries = enter_all ts (enter t entries)

abbrev pub enter_blocks : List PaymentStatus → List (Text × Answer) → List (Text × Answer)
enter_blocks [] entries = entries
enter_blocks (b ∷ bs) entries = enter_blocks bs (enter_all b.transactions entries)

-- The first reference of a transaction is the one that is named.
abbrev names : TransactionStatus → List Text
names t = elim (given t.end_to_end_id) [
  | some reference ↦ reference ∷ []
  | none ↦ elim (given t.instruction_id) [ some reference ↦ reference ∷ [] | none ↦ [] ]
]

abbrev names_of : List TransactionStatus → List Text
names_of [] = []
names_of (t ∷ ts) = names t ++ names_of ts

abbrev named_in : List PaymentStatus → List Text
named_in [] = []
named_in (b ∷ bs) = names_of b.transactions ++ named_in bs

abbrev pub block_of : PaymentStatus → Block
block_of b = record {
  payment_information_id = b.payment_information_id;
  answer = level_answer Level.payment b.status b.reasons;
  transactions = length b.transactions;
  accepted = (tally (map (λ t. t.status) b.transactions)).accepted;
  rejected = (tally (map (λ t. t.status) b.transactions)).rejected;
}

-- `reading`.
unfoldable pub reading : StatusReport → Reading
reading p = record {
  group = level_answer Level.group p.status p.reasons;
  blocks = map block_of p.payments;
  by_reference = enter_blocks p.payments [];
  named = named_in p.payments;
}

-- `_block`: the block of an id, or the only one there is.
abbrev pub has_id : Text → Block → Bool
has_id id b = option_is b.payment_information_id id

abbrev pub only_block : List Block → Option Block
only_block (b ∷ []) = some b
only_block _ = none

abbrev pub block_in : Text → List Block → Option Block → Option Block
block_in id [] otherwise = otherwise
block_in id (b ∷ bs) otherwise = if has_id id b then some b else block_in id bs otherwise

unfoldable pub find_block : Option Text → List Block → Option Block
find_block none blocks = only_block blocks
find_block (some id) blocks = block_in id blocks (only_block blocks)

-- What is inherited from a level above.
abbrev inherit : Level → Answer → Answer
inherit level a = record {
  status = a.status;
  level = level;
  reasons = a.reasons;
  accepted_at = none;
}

abbrev pub from_group : Answer → Answer
from_group a =
    if is_some (given a.status)
    then inherit Level.group a
    else record { status = none; level = Level.unanswered; reasons = []; accepted_at = none }

abbrev pub from_block : Answer → Option Block → Answer
from_block message none = from_group message
from_block message (some b) =
    if is_some (given b.answer.status) then inherit Level.payment b.answer else from_group message

abbrev pub or_above : Reading → Option Text → Option Answer → Answer
or_above r payment_information_id (some a) = a
or_above r payment_information_id none =
    from_block r.group (find_block (given payment_information_id) r.blocks)

abbrev pub entry_given : Option Text → List (Text × Answer) → Option Answer
entry_given none entries = none
entry_given (some key) entries = entry_of key entries

abbrev pub or_answer : Option Answer → Option Answer → Option Answer
or_answer none b = b
or_answer (some a) b = some a

-- `for_transfer`.
unfoldable pub for_transfer :
    Reading → (end_to_end_id instruction_id payment_information_id : Option Text) → Answer
for_transfer r end_to_end_id instruction_id payment_information_id =
    or_above r payment_information_id (
      or_answer (entry_given (given end_to_end_id) r.by_reference)
        (entry_given (given instruction_id) r.by_reference))

-- `unsent`.
abbrev is_ours : List (Option Text) → Text → Bool
is_ours references name =
    any (λ r. elim (given r) [ some t ↦ text_eq t name | none ↦ false ]) references

abbrev not_among : List (Option Text) → List Text → List Text
not_among references [] = []
not_among references (n ∷ ns) =
    let rest = not_among references ns in if is_ours references n then rest else n ∷ rest

unfoldable pub unsent : Reading → List (Option Text) → List Text
unsent r references = not_among references r.named
