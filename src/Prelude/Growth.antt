-- ===== src/Prelude/Growth.antt =====
-- Rows that are added to a table.
use mathlib.Core.Path.{◌≡◌, refl, sym, subst}
use mathlib.Core.Bool.{Bool, true, false}
use mathlib.Core.List.{List, [], ◌∷◌, ◌++◌, Memᴰ}
use mathlib.Core.Logic.{◌≢◌, inl, inr}
use painfree_ebics_middlewar.Prelude.Tests.{Bool-cases}
use painfree_ebics_middlewar.Prelude.Lists.{All, any}
use painfree_ebics_middlewar.Prelude.Tables.{select_where, Distinct}

module _ {ℓ} {A : Type ℓ} where
  pub any-false : (p : A → Bool) (xs : List A) → any p xs ≡ false → All (λ x. p x ≡ false) xs
  any-false p [] h = tt
  any-false p (x ∷ xs) h = elim (Bool-cases (p x)) [
    | inl e ↦ absurd (clash (rw e at h))
    | inr e ↦ (e, any-false p xs (rw e at h))
  ]
    where
      clash : true ≡ false → ⊥
      clash e = cc

  pub All-append {κ} : (P : A → Type κ) (xs ys : List A) → All P xs → All P ys → All P (xs ++ ys)
  All-append P [] ys h k = k
  All-append P (x ∷ xs) ys h k = (h.0, All-append P xs ys h.1 k)

  pub select_where-append :
      (p : A → Bool) (xs ys : List A)
      → select_where p (xs ++ ys) ≡ select_where p xs ++ select_where p ys
  unfolding select_where
  select_where-append p [] ys = refl
  select_where-append p (x ∷ xs) ys = elim (Bool-cases (p x)) [
    | inl e ↦ rw (e, select_where-append p xs ys) refl
    | inr e ↦ rw (e, select_where-append p xs ys) refl
  ]

  -- A row with a new value in a column.
  pub Distinct-added {κ} :
      {B : Type κ} (column : A → B) (xs : List A) (x : A)
      → Distinct column xs
      → All (λ y. column y ≢ column x) xs
      → Distinct column (xs ++ (x ∷ []))
  Distinct-added column [] x d h = (tt, tt)
  Distinct-added column (y ∷ ys) x d h = (
    All-append (λ z. column z ≢ column y) ys (x ∷ []) d.0 ((λ e. h.0 (sym e)), tt),
    Distinct-added column ys x d.1 h.1,
  )

  pub any_of_Memᴰ : (p : A → Bool) (xs : List A) {o : A} → Memᴰ o xs → p o ≡ true → any p xs ≡ true
  any_of_Memᴰ p [] m e = elim m [ ]
  any_of_Memᴰ p (x ∷ xs) {o} (Memᴰ.head same) e =
      let here : p x ≡ true = subst (λ y. p y ≡ true) same e in rw here refl
  any_of_Memᴰ p (x ∷ xs) (Memᴰ.tail m) e = elim (Bool-cases (p x)) [
    | inl here ↦ rw here refl
    | inr other ↦ rw other (any_of_Memᴰ p xs m e)
  ]
