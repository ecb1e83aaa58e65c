-- ===== src/Reconcile/Reading/Named.antt =====
-- What a reading of a report has under a reference: painfree/reconcile.py.

use painfree_ebics_middlewar.Prelude.{
  Text, text_eq, text_eq→eq, Bool, true, false, ◌||◌, if◌then◌else◌, is_some, Bool-cases, Option,
  none, some, List, [], ◌∷◌, ◌++◌, All, ◌≡◌, refl, sym, ap, ◌∙◌, subst, inl, inr,
}
use painfree_ebics_middlewar.Orders.Rows.{option_is}
use painfree_ebics_middlewar.Reconcile.Reports.{
  TransactionStatus, PaymentStatus, transactions_of, given,
}
use painfree_ebics_middlewar.Reconcile.Reading.{
  Answer, entry_of, set_default, set_given, transaction_answer, enter, enter_all, enter_blocks,
  or_answer,
}

-- A transaction carries a reference.
abbrev names_it : (reference : Text) → TransactionStatus → Bool
names_it reference t =
    option_is (given t.end_to_end_id) reference || option_is (given t.instruction_id) reference

-- What is entered under a key.
abbrev entry_at : (key : Text) → Option Text → Answer → Option Answer
entry_at key given_key a = if option_is given_key key then some a else none

entry_of-append :
    (key : Text) (es fs : List (Text × Answer))
    → entry_of key (es ++ fs) ≡ or_answer (entry_of key es) (entry_of key fs)
entry_of-append key [] fs = refl
entry_of-append key ((k, b) ∷ es) fs = elim (Bool-cases (text_eq k key)) [
  | inl e ↦ rw e refl
  | inr e ↦ rw e (entry_of-append key es fs)
]

or_answer-none : (x : Option Answer) → or_answer x none ≡ x
or_answer-none none = refl
or_answer-none (some a) = refl

or_answer-some : (x y : Option Answer) → is_some x ≡ true → or_answer x y ≡ x
or_answer-some none y h = cc
or_answer-some (some a) y h = refl

or_answer_assoc :
    (x y z : Option Answer) → or_answer (or_answer x y) z ≡ or_answer x (or_answer y z)
or_answer_assoc none y z = refl
or_answer_assoc (some a) y z = refl

-- The first entry under a key stays.
entry_of-set_default :
    (key k : Text) (a : Answer) (es : List (Text × Answer))
    → entry_of key (set_default k a es) ≡ or_answer (entry_of key es) (entry_at key (some k) a)
unfolding set_default
entry_of-set_default key k a es = elim (Bool-cases (is_some (entry_of k es))) [
  | inl known ↦ elim (Bool-cases (text_eq k key)) [
    | inl e ↦
        let there : is_some (entry_of key es) ≡ true =
          subst (λ x. is_some (entry_of x es) ≡ true) (text_eq→eq k key e) known in
        rw known (sym (or_answer-some (entry_of key es) (entry_at key (some k) a) there))
    | inr e ↦ rw (known, e) (sym (or_answer-none (entry_of key es)))
  ]
  | inr new ↦ rw new (entry_of-append key es ((k, a) ∷ []))
]

entry_of-set_given :
    (key : Text) (k : Option Text) (a : Answer) (es : List (Text × Answer))
    → entry_of key (set_given k a es) ≡ or_answer (entry_of key es) (entry_at key k a)
entry_of-set_given key none a es = sym (or_answer-none (entry_of key es))
entry_of-set_given key (some k) a es = entry_of-set_default key k a es

-- The answer of the first transaction that carries a reference.
abbrev first_answer : (reference : Text) → List TransactionStatus → Option Answer
first_answer reference [] = none
first_answer reference (t ∷ ts) =
    if names_it reference t then some (transaction_answer t) else first_answer reference ts

entry_at-both :
    (key : Text) (k l : Option Text) (a : Answer)
    → or_answer (entry_at key k a) (entry_at key l a)
      ≡ (if option_is k key || option_is l key then some a else none)
entry_at-both key k l a = elim (Bool-cases (option_is k key)) [
  | inl e ↦ rw e refl
  | inr e ↦ rw e refl
]

or_answer-if :
    (b : Bool) (a : Answer) (y : Option Answer)
    → or_answer (if b then some a else none) y ≡ (if b then some a else y)
or_answer-if true a y = refl
or_answer-if false a y = refl

entry_of-enter :
    (key : Text) (t : TransactionStatus) (es : List (Text × Answer))
    → entry_of key (enter t es)
      ≡ or_answer (entry_of key es) (if names_it key t then some (transaction_answer t) else none)
entry_of-enter key t es =
    let a = transaction_answer t in
    entry_of-set_given key (given t.instruction_id) a (set_given (given t.end_to_end_id) a es)
    ∙ ap (λ x. or_answer x (entry_at key (given t.instruction_id) a))
        (entry_of-set_given key (given t.end_to_end_id) a es)
    ∙ or_answer_assoc (entry_of key es) (entry_at key (given t.end_to_end_id) a)
        (entry_at key (given t.instruction_id) a)
    ∙ ap (or_answer (entry_of key es))
        (entry_at-both key (given t.end_to_end_id) (given t.instruction_id) a)

first_answer-append :
    (key : Text) (ts us : List TransactionStatus)
    → first_answer key (ts ++ us) ≡ or_answer (first_answer key ts) (first_answer key us)
first_answer-append key [] us = refl
first_answer-append key (t ∷ ts) us = elim (Bool-cases (names_it key t)) [
  | inl e ↦ rw e refl
  | inr e ↦ rw e (first_answer-append key ts us)
]

entry_of-enter_all :
    (key : Text) (ts : List TransactionStatus) (es : List (Text × Answer))
    → entry_of key (enter_all ts es) ≡ or_answer (entry_of key es) (first_answer key ts)
entry_of-enter_all key [] es = sym (or_answer-none (entry_of key es))
entry_of-enter_all key (t ∷ ts) es =
    entry_of-enter_all key ts (enter t es)
    ∙ ap (λ x. or_answer x (first_answer key ts)) (entry_of-enter key t es)
    ∙ or_answer_assoc (entry_of key es) _ (first_answer key ts)
    ∙ ap (or_answer (entry_of key es))
        (or_answer-if (names_it key t) (transaction_answer t) (first_answer key ts))

pub entry_of-enter_blocks :
    (key : Text) (bs : List PaymentStatus) (es : List (Text × Answer))
    → entry_of key (enter_blocks bs es)
      ≡ or_answer (entry_of key es) (first_answer key (transactions_of bs))
entry_of-enter_blocks key [] es = sym (or_answer-none (entry_of key es))
entry_of-enter_blocks key (b ∷ bs) es =
    entry_of-enter_blocks key bs (enter_all b.transactions es)
    ∙ ap (λ x. or_answer x (first_answer key (transactions_of bs)))
        (entry_of-enter_all key b.transactions es)
    ∙ or_answer_assoc (entry_of key es) (first_answer key b.transactions)
        (first_answer key (transactions_of bs))
    ∙ ap (or_answer (entry_of key es))
        (sym (first_answer-append key b.transactions (transactions_of bs)))

-- No transaction carries the reference; or the answer is the one of the first that does.
abbrev pub Unnamed : Option Text → List TransactionStatus → Type 0
Unnamed none ts = Unit
Unnamed (some reference) ts = All (λ t. names_it reference t ≡ false) ts

abbrev pub SaidOf : Option Text → List TransactionStatus → Answer → Type 0
SaidOf none ts a = ⊥
SaidOf (some reference) ts a =
    (before : List TransactionStatus) × (t : TransactionStatus) × (after : List TransactionStatus)
    × (ts ≡ before ++ (t ∷ after))
    × Unnamed (some reference) before
    × (names_it reference t ≡ true)
    × (a ≡ transaction_answer t)

abbrev pub Answers : Option Text → List TransactionStatus → Option Answer → Type 0
Answers o ts none = Unnamed o ts
Answers o ts (some a) = SaidOf o ts a

first_answer-later :
    (reference : Text) (t : TransactionStatus) (ts : List TransactionStatus) (r : Option Answer)
    → names_it reference t ≡ false
    → Answers (some reference) ts r
    → Answers (some reference) (t ∷ ts) r
first_answer-later reference t ts none e h = (e, h)
first_answer-later reference t ts (some a) e (before, u, after, same, unnamed, named, is_a) =
    (t ∷ before, u, after, ap (λ l. t ∷ l) same, (e, unnamed), named, is_a)

pub first_answer-Answers :
    (reference : Text) (ts : List TransactionStatus)
    → Answers (some reference) ts (first_answer reference ts)
first_answer-Answers reference [] = tt
first_answer-Answers reference (t ∷ ts) = elim (Bool-cases (names_it reference t)) [
  | inl e ↦ rw e ([], t, ts, refl, tt, e, refl)
  | inr e ↦ rw e (
      first_answer-later reference t ts (first_answer reference ts) e
        (first_answer-Answers reference ts))
]
