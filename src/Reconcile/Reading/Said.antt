-- ===== src/Reconcile/Reading/Said.antt =====
-- What a page shows of a transfer was said about it: painfree/reconcile.py.
use mathlib.Core.List.{Memᴰ}
use painfree_ebics_middlewar.Prelude.{
  Text, text_eq→eq, true, false, is_some, Bool-cases, Option, none, some, List, [], ◌∷◌, map, ◌≡◌,
  refl, sym, ap, subst, ◌⊎◌, inl, inr,
}
use painfree_ebics_middlewar.Orders.Rows.{option_is}
use painfree_ebics_middlewar.Reconcile.Reports.{PaymentStatus, StatusReport, transactions_of, given}
use painfree_ebics_middlewar.Reconcile.Reading.{
  Level, Answer, Block, block_of, reading, has_id, only_block, block_in, find_block, from_group,
  from_block, or_above, entry_given, or_answer, for_transfer,
}
use painfree_ebics_middlewar.Reconcile.Reading.Named.{
  Unnamed, SaidOf, Answers, entry_of-enter_blocks, first_answer-Answers,
}

-- What is said above the transactions: the status of the block of the transfer, or of the only block; the
-- status of the message; or none.
abbrev OfBlock : StatusReport → (payment_information_id : Option Text) → Answer → Type 0
OfBlock p payment_information_id a =
    (b : PaymentStatus) × Memᴰ b p.payments
    × (a.level ≡ Level.payment)
    × (a.status ≡ b.status)
    × (((id : Text) × (given payment_information_id ≡ some id)
          × (b.payment_information_id ≡ some id))
        ⊎ (p.payments ≡ b ∷ []))

abbrev OfMessage : StatusReport → Answer → Type 0
OfMessage p a =
    ((a.level ≡ Level.group) × (a.status ≡ p.status))
    ⊎ ((is_some (given p.status) ≡ false) × (a.level ≡ Level.unanswered) × (a.status ≡ none))

abbrev pub Said :
    StatusReport
    → (end_to_end_id instruction_id payment_information_id : Option Text) → Answer
    → Type 0
Said p end_to_end_id instruction_id payment_information_id a =
    let ts = transactions_of p.payments in
    SaidOf (given end_to_end_id) ts a
    ⊎ (Unnamed (given end_to_end_id) ts × SaidOf (given instruction_id) ts a)
    ⊎ (Unnamed (given end_to_end_id) ts
        × Unnamed (given instruction_id) ts
        × (OfBlock p payment_information_id a ⊎ OfMessage p a))

Memᴰ-map :
    {x : Block} (bs : List PaymentStatus)
    → Memᴰ x (map block_of bs)
    → (b : PaymentStatus) × Memᴰ b bs × (x ≡ block_of b)
Memᴰ-map [] m = elim m [ ]
Memᴰ-map (b ∷ bs) (Memᴰ.head e) = (b, Memᴰ.head refl, e)
Memᴰ-map (b ∷ bs) (Memᴰ.tail m) = let (c, n, e) = Memᴰ-map bs m in (c, Memᴰ.tail n, e)

-- The block that is found is one of the report's, by its id or because it is alone.
abbrev FoundBlock : List PaymentStatus → Option Text → Block → Type 0
FoundBlock bs id x =
    (b : PaymentStatus) × Memᴰ b bs
    × (x ≡ block_of b)
    × (((t : Text) × (id ≡ some t) × (b.payment_information_id ≡ some t)) ⊎ (bs ≡ b ∷ []))

only_block-FoundBlock :
    (bs : List PaymentStatus) (id : Option Text) {x : Block}
    → only_block (map block_of bs) ≡ some x
    → FoundBlock bs id x
only_block-FoundBlock [] id h = cc
only_block-FoundBlock (b ∷ []) id {x} h = (b, Memᴰ.head refl, injective h, inr refl)
  where
    injective : Option.some (block_of b) ≡ some x → x ≡ block_of b
    injective e = cc
only_block-FoundBlock (b ∷ c ∷ bs) id h = cc

option_is-some : (o : Option Text) (id : Text) → option_is o id ≡ true → o ≡ some id
option_is-some none id h = cc
option_is-some (some t) id h = ap some (text_eq→eq t id h)

block_in-found :
    (bs : List PaymentStatus) (id : Text) (otherwise : Option Block) {x : Block}
    → block_in id (map block_of bs) otherwise ≡ some x
    → ((b : PaymentStatus) × Memᴰ b bs × (x ≡ block_of b) × (b.payment_information_id ≡ some id))
      ⊎ (otherwise ≡ some x)
block_in-found [] id otherwise h = inr h
block_in-found (b ∷ bs) id otherwise {x} h = elim (Bool-cases (has_id id (block_of b))) [
  | inl e ↦
      let same : some (block_of b) ≡ some x = rw e at h in
      inl (b, Memᴰ.head refl, injective same, option_is-some b.payment_information_id id e)
  | inr e ↦ elim (block_in-found bs id otherwise (rw e at h)) [
    | inl (c, m, same, is_it) ↦ inl (c, Memᴰ.tail m, same, is_it)
    | inr k ↦ inr k
  ]
]
  where
    injective : Option.some (block_of b) ≡ some x → x ≡ block_of b
    injective e = cc

find_block-FoundBlock :
    (bs : List PaymentStatus) (id : Option Text) {x : Block}
    → find_block id (map block_of bs) ≡ some x
    → FoundBlock bs id x
unfolding find_block
find_block-FoundBlock bs none h = only_block-FoundBlock bs none h
find_block-FoundBlock bs (some id) {x} h =
    elim (block_in-found bs id (only_block (map block_of bs)) h) [
      | inl (b, m, same, is_it) ↦ (b, m, same, inl (id, refl, is_it))
      | inr k ↦ only_block-FoundBlock bs (some id) k
    ]

-- What is not said of a transaction is said above.
from_group-OfMessage : (p : StatusReport) → OfMessage p (from_group (reading p).group)
unfolding reading
from_group-OfMessage p = elim (Bool-cases (is_some (given p.status))) [
  | inl e ↦ rw e (inl (refl, refl))
  | inr e ↦ inr (e, rw e refl, rw e refl)
]

from_block-Said :
    (p : StatusReport) (id : Option Text) (found : Option Block)
    → find_block (given id) (reading p).blocks ≡ found
    → OfBlock p id (from_block (reading p).group found)
      ⊎ OfMessage p (from_block (reading p).group found)
unfolding reading
from_block-Said p id none h = inr (from_group-OfMessage p)
from_block-Said p id (some x) h = elim (Bool-cases (is_some (given x.answer.status))) [
  | inl said ↦
      let (b, m, same, is_it) = find_block-FoundBlock p.payments (given id) h in
      rw said (inl (b, m, refl, ap (λ (y : Block). y.answer.status) same, is_it))
  | inr silent ↦ rw silent (inr (from_group-OfMessage p))
]

-- What the dictionary has under a reference of the transfer.
entry_given-Answers :
    (p : StatusReport) (o : Option Text)
    → Answers o (transactions_of p.payments) (entry_given o (reading p).by_reference)
unfolding reading
entry_given-Answers p none = tt
entry_given-Answers p (some reference) =
    subst (Answers (some reference) (transactions_of p.payments))
      (sym (entry_of-enter_blocks reference p.payments []))
      (first_answer-Answers reference (transactions_of p.payments))

-- What a page shows of a transfer: if a transaction of the report carries its end-to-end id, the answer of
-- the first that does; otherwise, if one carries its instruction id, the answer of the first that does;
-- and only if none carries either, the status of its payment block, or of the only block of the report,
-- marked as inherited, or the status of the message, marked so, or no answer if the message has none.
-- Transfers that share a reference are not told apart: each of them is shown the answer of the first
-- transaction.
pub for_transfer-Said :
    (p : StatusReport) (end_to_end_id instruction_id payment_information_id : Option Text)
    → Said p end_to_end_id instruction_id payment_information_id
        (for_transfer (reading p) end_to_end_id instruction_id payment_information_id)
unfolding for_transfer
for_transfer-Said p e i id =
    choose (entry_given (given e) (reading p).by_reference)
      (entry_given (given i) (reading p).by_reference) (entry_given-Answers p (given e))
      (entry_given-Answers p (given i))
  where
    choose :
        (x y : Option Answer)
        → Answers (given e) (transactions_of p.payments) x
        → Answers (given i) (transactions_of p.payments) y
        → Said p e i id (or_above (reading p) id (or_answer x y))
    choose (some a) y hx hy = inl hx
    choose none (some a) hx hy = inr (inl (hx, hy))
    choose none none hx hy =
        inr (inr (hx, hy, from_block-Said p id (find_block (given id) (reading p).blocks) refl))
