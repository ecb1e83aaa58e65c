-- ===== src/Prelude/Tables.antt =====
-- Rows of a database table as a list: what an `UPDATE ... WHERE` and a `SELECT` do to it.
use mathlib.Core.Path.{◌≡◌, refl, sym, subst, ap, ◌∙◌}
use mathlib.Core.Bool.{Bool, true, false}
use mathlib.Core.List.{List, [], ◌∷◌, map, Memᴰ}
use mathlib.Core.Option.{Option, none, some}
use mathlib.Core.Logic.{◌≢◌, ◌⊎◌, inl, inr}
use painfree_ebics_middlewar.Prelude.Tests.{Bool-cases, if◌then◌else◌}
use painfree_ebics_middlewar.Prelude.Lists.{All, any}

module _ {ℓ} {A : Type ℓ} where
  unfoldable pub update_where : (A → Bool) → (A → A) → List A → List A
  update_where p f [] = []
  update_where p f (x ∷ xs) = (if p x then f x else x) ∷ update_where p f xs

  unfoldable pub select_where : (A → Bool) → List A → List A
  select_where p [] = []
  select_where p (x ∷ xs) = let rest = select_where p xs in if p x then x ∷ rest else rest

  abbrev pub first : List A → Option A
  first [] = none
  first (x ∷ xs) = some x

  -- A property of every row is kept if the change keeps it on the rows that it reaches.
  pub All-update_where {κ} :
      {P : A → Type κ} (p : A → Bool) (f : A → A)
      → ((x : A) → p x ≡ true → P x → P (f x))
      → (xs : List A) → All P xs
      → All P (update_where p f xs)
  unfolding update_where
  All-update_where p f h [] held = tt
  All-update_where p f h (x ∷ xs) held = elim (Bool-cases (p x)) [
    | inl e ↦ (rw e (h x e held.0), All-update_where p f h xs held.1)
    | inr e ↦ (rw e held.0, All-update_where p f h xs held.1)
  ]

  -- The same for a property that the rows have after the change.
  pub All-updated {κ μ} :
      {P : A → Type κ} {Q : A → Type μ} (p : A → Bool) (f : A → A)
      → ((x : A) → p x ≡ true → P x → Q (f x))
      → ((x : A) → p x ≡ false → P x → Q x)
      → (xs : List A) → All P xs
      → All Q (update_where p f xs)
  unfolding update_where
  All-updated p f h k [] held = tt
  All-updated p f h k (x ∷ xs) held = elim (Bool-cases (p x)) [
    | inl e ↦ (rw e (h x e held.0), All-updated p f h k xs held.1)
    | inr e ↦ (rw e (k x e held.0), All-updated p f h k xs held.1)
  ]

  pub any-Memᴰ : (p : A → Bool) (xs : List A) → any p xs ≡ true → (x : A) × Memᴰ x xs × (p x ≡ true)
  any-Memᴰ p [] h = cc
  any-Memᴰ p (x ∷ xs) h = elim (Bool-cases (p x)) [
    | inl e ↦ (x, Memᴰ.head refl, e)
    | inr e ↦ let (y, m, holds) = any-Memᴰ p xs (rw e at h) in (y, Memᴰ.tail m, holds)
  ]

  -- A column that the change leaves alone.
  pub map-update_where {κ} :
      {B : Type κ} (column : A → B) (p : A → Bool) (f : A → A)
      → ((x : A) → column (f x) ≡ column x)
      → (xs : List A) → map column (update_where p f xs) ≡ map column xs
  unfolding update_where
  map-update_where column p f h [] = refl
  map-update_where column p f h (x ∷ xs) = elim (Bool-cases (p x)) [
    | inl e ↦ rw (e, h x, map-update_where column p f h xs) refl
    | inr e ↦ rw (e, map-update_where column p f h xs) refl
  ]

  -- Nothing changes if no row passes the test.
  pub update_where_none :
      (p : A → Bool) (f : A → A) (xs : List A)
      → All (λ x. p x ≡ false) xs
      → update_where p f xs ≡ xs
  unfolding update_where
  update_where_none p f [] h = refl
  update_where_none p f (x ∷ xs) h = rw (h.0, update_where_none p f xs h.1) refl

  -- The same, if a query finds no row.
  pub update_where_unseen :
      (p : A → Bool) (f : A → A) (xs : List A)
      → first (select_where p xs) ≡ none
      → update_where p f xs ≡ xs
  unfolding update_where select_where
  update_where_unseen p f [] h = refl
  update_where_unseen p f (x ∷ xs) h = elim (Bool-cases (p x)) [
    | inl e ↦ let found : some x ≡ none = rw e at h in cc
    | inr e ↦
        let rest : first (select_where p xs) ≡ none = rw e at h in
        rw (e, update_where_unseen p f xs rest) refl
  ]

  pub map-All {κ μ} :
      {P : A → Type κ} {Q : A → Type μ}
      → ((x : A) → P x → Q x)
      → (xs : List A) → All P xs
      → All Q xs
  map-All h [] held = tt
  map-All h (x ∷ xs) held = (h x held.0, map-All h xs held.1)

  pub zip-All {κ μ} :
      (P : A → Type κ) (Q : A → Type μ) (xs : List A)
      → All P xs
      → All Q xs
      → All (λ x. P x × Q x) xs
  zip-All P Q [] h k = tt
  zip-All P Q (x ∷ xs) h k = ((h.0, k.0), zip-All P Q xs h.1 k.1)

  pub All-Memᴰ {κ} : (P : A → Type κ) (xs : List A) {x : A} → All P xs → Memᴰ x xs → P x
  All-Memᴰ P [] held m = elim m [ ]
  All-Memᴰ P (y ∷ ys) held (Memᴰ.head e) = subst P (sym e) held.0
  All-Memᴰ P (y ∷ ys) held (Memᴰ.tail m) = All-Memᴰ P ys held.1 m

  pub All-of_Memᴰ {κ} : (P : A → Type κ) (xs : List A) → ((x : A) → Memᴰ x xs → P x) → All P xs
  All-of_Memᴰ P [] h = tt
  All-of_Memᴰ P (x ∷ xs) h = (h x (Memᴰ.head refl), All-of_Memᴰ P xs (λ y m. h y (Memᴰ.tail m)))

  -- The values of a column are different from each other.
  abbrev pub Distinct {κ} : {B : Type κ} → (A → B) → List A → Type κ
  Distinct column [] = Unit
  Distinct column (x ∷ xs) = All (λ y. column y ≢ column x) xs × Distinct column xs

  -- A row is the only one that has its value in the column.
  pub Distinct-only {κ} :
      {B : Type κ} (column : A → B) (xs : List A) {o : A}
      → Distinct column xs
      → Memᴰ o xs
      → All (λ x. column x ≡ column o → x ≡ o) xs
  Distinct-only column [] h m = elim m [ ]
  Distinct-only column (x ∷ xs) h (Memᴰ.head e) =
      (λ _. sym e, map-All (λ y differs same. absurd (differs (same ∙ ap column e))) xs h.0)
  Distinct-only column (x ∷ xs) h (Memᴰ.tail m) = (
    λ same. absurd (All-Memᴰ (λ y. column y ≢ column x) xs h.0 m (sym same)),
    Distinct-only column xs h.1 m,
  )

  -- A query that only one row passes.
  pub first-select_where :
      (p : A → Bool) (xs : List A) {o : A}
      → All (λ x. p x ≡ true → x ≡ o) xs
      → Memᴰ o xs
      → p o ≡ true
      → first (select_where p xs) ≡ some o
  unfolding select_where
  first-select_where p [] h m e = elim m [ ]
  first-select_where p (x ∷ xs) h m e = elim (Bool-cases (p x)) [
    | inl passes ↦ rw passes (ap some (h.0 passes))
    | inr fails ↦ elim m [
      | Memᴰ.head same ↦ absurd (clash p same e fails)
      | Memᴰ.tail rest ↦ rw fails (first-select_where p xs h.1 rest e)
    ]
  ]
    where
      clash : (p : A → Bool) {x o : A} → o ≡ x → p o ≡ true → p x ≡ false → ⊥
      clash p same e fails = let f = subst (λ y. p y ≡ true) same e in cc

  select_where_nothing :
      (p : A → Bool) (xs : List A) → All (λ x. p x ≡ false) xs → select_where p xs ≡ []
  unfolding select_where
  select_where_nothing p [] h = refl
  select_where_nothing p (x ∷ xs) h = rw (h.0, select_where_nothing p xs h.1) refl

  -- The only row that has its value in a column is all that a query for this value gives.
  pub select_where_one {κ} :
      {B : Type κ} (column : A → B) (p : A → Bool) (xs : List A) {o : A}
      → Distinct column xs
      → ((x : A) → p x ≡ true → column x ≡ column o)
      → Memᴰ o xs
      → p o ≡ true
      → select_where p xs ≡ o ∷ []
  unfolding select_where
  select_where_one column p [] d h m e = elim m [ ]
  select_where_one column p (x ∷ xs) {o} d h (Memᴰ.head same) e =
      let passes : p x ≡ true = subst (λ y. p y ≡ true) same e in
      rw
        (
          passes,
          select_where_nothing p xs
              (map-All (λ y differs. fails y (λ yes. differs (h y yes ∙ ap column same))) xs d.0),
        )
        (ap (λ y. y ∷ []) (sym same))
    where
      fails : (y : A) → (p y ≡ true → ⊥) → p y ≡ false
      fails y never = elim (Bool-cases (p y)) [
        | inl passes ↦ absurd (never passes)
        | inr lacking ↦ lacking
      ]
  select_where_one column p (x ∷ xs) d h (Memᴰ.tail m) e = elim (Bool-cases (p x)) [
    | inl passes ↦ absurd (All-Memᴰ (λ y. column y ≢ column x) xs d.0 m (sym (h x passes)))
    | inr fails ↦ rw fails (select_where_one column p xs d.1 h m e)
  ]

  -- A change that a query does not see.
  pub select_where-update_where :
      (q p : A → Bool) (f : A → A)
      → ((x : A) → q (f x) ≡ q x)
      → (xs : List A) → select_where q (update_where p f xs) ≡ update_where p f (select_where q xs)
  unfolding update_where select_where
  select_where-update_where q p f h [] = refl
  select_where-update_where q p f h (x ∷ xs) = elim (Bool-cases (p x)) [
    | inl e ↦ elim (Bool-cases (q x)) [
      | inl t ↦
          rw (e, h x, t, select_where-update_where q p f h xs)
            (ap (λ y. y ∷ update_where p f (select_where q xs)) (sym (changed x e)))
      | inr t ↦ rw (e, h x, t, select_where-update_where q p f h xs) refl
    ]
    | inr e ↦ elim (Bool-cases (q x)) [
      | inl t ↦
          rw (e, t, select_where-update_where q p f h xs)
            (ap (λ y. y ∷ update_where p f (select_where q xs)) (sym (unchanged x e)))
      | inr t ↦ rw (e, t, select_where-update_where q p f h xs) refl
    ]
  ]
    where
      changed : (x : A) → p x ≡ true → (if p x then f x else x) ≡ f x
      changed x e = rw e refl

      unchanged : (x : A) → p x ≡ false → (if p x then f x else x) ≡ x
      unchanged x e = rw e refl

  -- The columns of an updated table are still different.
  pub Distinct-update_where {κ} :
      {B : Type κ} (column : A → B) (p : A → Bool) (f : A → A)
      → ((x : A) → column (f x) ≡ column x)
      → (xs : List A) → Distinct column xs
      → Distinct column (update_where p f xs)
  unfolding update_where
  Distinct-update_where column p f h [] d = tt
  Distinct-update_where column p f h (x ∷ xs) d = (
    All-update_where p f (λ y _ differs same. differs (sym (h y) ∙ same)) xs
        (map-All (λ y differs same. differs (same ∙ kept_head)) xs d.0),
    Distinct-update_where column p f h xs d.1,
  )
    where
      kept_head : column (if p x then f x else x) ≡ column x
      kept_head = elim (Bool-cases (p x)) [ inl e ↦ rw e (h x) | inr e ↦ rw e refl ]

  -- Where a row goes in an update.
  pub Memᴰ-kept :
      (p : A → Bool) (f : A → A) (xs : List A) {o : A}
      → Memᴰ o xs
      → p o ≡ false
      → Memᴰ o (update_where p f xs)
  unfolding update_where
  Memᴰ-kept p f [] m e = elim m [ ]
  Memᴰ-kept p f (x ∷ xs) {o} (Memᴰ.head same) e =
      let fails : p x ≡ false = subst (λ y. p y ≡ false) same e in rw fails (Memᴰ.head same)
  Memᴰ-kept p f (x ∷ xs) (Memᴰ.tail m) e = Memᴰ.tail (Memᴰ-kept p f xs m e)

  pub Memᴰ-changed :
      (p : A → Bool) (f : A → A) (xs : List A) {o : A}
      → Memᴰ o xs
      → p o ≡ true
      → Memᴰ (f o) (update_where p f xs)
  unfolding update_where
  Memᴰ-changed p f [] m e = elim m [ ]
  Memᴰ-changed p f (x ∷ xs) {o} (Memᴰ.head same) e =
      let passes : p x ≡ true = subst (λ y. p y ≡ true) same e in rw passes (Memᴰ.head (ap f same))
  Memᴰ-changed p f (x ∷ xs) (Memᴰ.tail m) e = Memᴰ.tail (Memᴰ-changed p f xs m e)

  -- Where a row of an updated table comes from.
  pub Memᴰ-updated :
      (p : A → Bool) (f : A → A) (xs : List A) {y : A}
      → Memᴰ y (update_where p f xs)
      → (x : A) × Memᴰ x xs × (((p x ≡ true) × (y ≡ f x)) ⊎ ((p x ≡ false) × (y ≡ x)))
  unfolding update_where
  Memᴰ-updated p f [] m = elim m [ ]
  Memᴰ-updated p f (x ∷ xs) {y} (Memᴰ.head e) = elim (Bool-cases (p x)) [
    | inl here ↦ (x, Memᴰ.head refl, inl (here, rw here at e))
    | inr other ↦ (x, Memᴰ.head refl, inr (other, rw other at e))
  ]
  Memᴰ-updated p f (x ∷ xs) (Memᴰ.tail m) =
      let (z, n, how) = Memᴰ-updated p f xs m in (z, Memᴰ.tail n, how)
