-- ===== src/Orders/History/Promotion.antt =====
-- The attempts of an order behind a promotion of painfree/queue.py.
use mathlib.Core.List.{Memᴰ}
use painfree_ebics_middlewar.Prelude.{
  ℕ, Text, text_eq, text_eq→eq, text_eq_iff, text_eq_differs, text_eq_refl, Bool, true, false, ◌&&◌,
  Bool-cases, Option, none, some, List, [], ◌∷◌, map, leb, All, map-All, Distinct, Distinct-only,
  select_where_one, update_where, select_where, if◌then◌else◌, ◌≡◌, ◌≢◌, refl, sym, ap, ◌∙◌, inl,
  inr, arith,
}
use painfree_ebics_middlewar.Orders.Rows.{
  AttemptState, same_attempt_state, AttemptRow, is_attempt, earlier, one,
}
use painfree_ebics_middlewar.Orders.Queue.Fallback.{
  superseded_values, live_values, is_reserve, promoted_attempts,
}

module _ (id : Text) (reserve : AttemptRow) (reason : Text) (code report_text : Option Text)
    (now : ℕ) where
  -- What the two statements make of one row.
  retired : AttemptRow → AttemptRow
  retired a =
      if is_attempt id AttemptState.live a then superseded_values code report_text now a else a

  promoted_row : AttemptRow → AttemptRow
  promoted_row a =
      if is_reserve reserve (retired a) then live_values reason now (retired a) else retired a

  promoted_attempts_rows :
      (rows : List AttemptRow)
      → promoted_attempts id reserve reason code report_text now rows ≡ map promoted_row rows
  unfolding promoted_attempts update_where promoted_row retired
  promoted_attempts_rows [] = refl
  promoted_attempts_rows (a ∷ rows) = rw (promoted_attempts_rows rows) refl

  superseded_no_reserve :
      (a : AttemptRow) → is_reserve reserve (superseded_values code report_text now a) ≡ false
  unfolding is_reserve superseded_values same_attempt_state
  superseded_no_reserve a = ground arith

  superseded_not_live :
      (a : AttemptRow) (other : Text)
      → is_attempt other AttemptState.live (superseded_values code report_text now a) ≡ false
  unfolding superseded_values same_attempt_state
  superseded_not_live a other = ground arith

  reserve_not_live :
      (a : AttemptRow) (other : Text)
      → is_reserve reserve a ≡ true
      → is_attempt other AttemptState.live a ≡ false
  unfolding is_reserve same_attempt_state
  reserve_not_live a other h =
      planned_not_live a.state (text_eq a.attempt_id reserve.attempt_id) (text_eq a.order_id other)
        h
    where
      planned_not_live :
          (state : AttemptState) (b c : Bool)
          → (b && same_attempt_state state AttemptState.planned) ≡ true
          → (c && same_attempt_state state AttemptState.live) ≡ false
      planned_not_live AttemptState.planned b c h = ground arith
      planned_not_live AttemptState.live b c h = ground arith
      planned_not_live AttemptState.superseded b c h = ground arith

  -- The three kinds of rows.
  promoted_row-live :
      (a : AttemptRow)
      → is_attempt id AttemptState.live a ≡ true
      → promoted_row a ≡ superseded_values code report_text now a
  unfolding promoted_row retired
  promoted_row-live a e = rw (e, superseded_no_reserve a) refl

  promoted_row-reserve :
      (a : AttemptRow) → is_reserve reserve a ≡ true → promoted_row a ≡ live_values reason now a
  unfolding promoted_row retired
  promoted_row-reserve a e = rw (reserve_not_live a id e, e) refl

  promoted_row-other :
      (a : AttemptRow)
      → is_attempt id AttemptState.live a ≡ false
      → is_reserve reserve a ≡ false
      → promoted_row a ≡ a
  unfolding promoted_row retired
  promoted_row-other a l e = rw (l, e) refl

  live_here :
      (a : AttemptRow)
      → a.order_id ≡ id
      → is_attempt id AttemptState.live (live_values reason now a) ≡ true
  unfolding live_values same_attempt_state
  live_here a same = rw ((text_eq_iff a.order_id id).1 same) refl

  live_elsewhere :
      (a : AttemptRow) (other : Text)
      → a.order_id ≡ id
      → other ≢ id
      → is_attempt other AttemptState.live (live_values reason now a) ≡ false
  unfolding live_values same_attempt_state
  live_elsewhere a other same differs =
      rw (text_eq_differs a.order_id other (λ e. differs (sym e ∙ same))) refl

  not_of_other :
      (a : AttemptRow) (other : Text)
      → other ≢ id
      → is_attempt id AttemptState.live a ≡ true
      → is_attempt other AttemptState.live a ≡ false
  not_of_other a other differs l =
      let same : a.order_id ≡ id = text_eq→eq a.order_id id (ground arith) in
      rw (text_eq_differs a.order_id other (λ e. differs (sym e ∙ same))) refl

  -- The live rows of the order are the reserve alone.
  live_promoted :
      (rows : List AttemptRow)
      → All (λ a. is_reserve reserve a ≡ true → a.order_id ≡ id) rows
      → select_where (is_attempt id AttemptState.live) (map promoted_row rows)
        ≡ map (live_values reason now) (select_where (is_reserve reserve) rows)
  unfolding select_where
  live_promoted [] h = refl
  live_promoted (a ∷ rows) h = elim (Bool-cases (is_reserve reserve a)) [
    | inl e ↦
        let now_live : is_attempt id AttemptState.live (live_values reason now a) ≡ true =
          live_here a (h.0 e) in
        rw (promoted_row-reserve a e, now_live, e, live_promoted rows h.1) refl
    | inr e ↦ elim (Bool-cases (is_attempt id AttemptState.live a)) [
      | inl l ↦ rw (promoted_row-live a l, superseded_not_live a id, e, live_promoted rows h.1) refl
      | inr n ↦ rw (promoted_row-other a n e, n, e, live_promoted rows h.1) refl
    ]
  ]

  -- The live rows of another order stay.
  live_promoted_other :
      (other : Text)
      → other ≢ id
      → (rows : List AttemptRow) → All (λ a. is_reserve reserve a ≡ true → a.order_id ≡ id) rows
      → select_where (is_attempt other AttemptState.live) (map promoted_row rows)
        ≡ select_where (is_attempt other AttemptState.live) rows
  unfolding select_where
  live_promoted_other other differs [] h = refl
  live_promoted_other other differs (a ∷ rows) h = elim (Bool-cases (is_reserve reserve a)) [
    | inl e ↦
        let still : is_attempt other AttemptState.live (live_values reason now a) ≡ false =
          live_elsewhere a other (h.0 e) differs in
        rw
          (
            promoted_row-reserve a e,
            still,
            reserve_not_live a other e,
            live_promoted_other other differs rows h.1,
          )
          refl
    | inr e ↦ elim (Bool-cases (is_attempt id AttemptState.live a)) [
      | inl l ↦
          let not_other : is_attempt other AttemptState.live a ≡ false =
            not_of_other a other differs l in
          rw
            (
              promoted_row-live a l,
              superseded_not_live a other,
              not_other,
              live_promoted_other other differs rows h.1,
            )
            refl
      | inr n ↦ rw (promoted_row-other a n e, live_promoted_other other differs rows h.1) refl
    ]
  ]

abbrev Found : Text → AttemptState → List AttemptRow → Option AttemptRow → Type 0
Found id state rows none = Unit
Found id state rows (some a) = Memᴰ a rows × (is_attempt id state a ≡ true)

earlier-Found :
    (id : Text) (state : AttemptState) (a : AttemptRow) (rows : List AttemptRow)
    (rest : Option AttemptRow)
    → is_attempt id state a ≡ true
    → Found id state rows rest
    → Found id state (a ∷ rows) (some (earlier a rest))
earlier-Found id state a rows none e h = (Memᴰ.head refl, e)
earlier-Found id state a rows (some b) e h = elim (Bool-cases (leb a.attempt_no b.attempt_no)) [
  | inl le ↦ rw le (Memᴰ.head refl, e)
  | inr gt ↦ rw gt (Memᴰ.tail h.0, h.1)
]

later-Found :
    (id : Text) (state : AttemptState) (a : AttemptRow) (rows : List AttemptRow)
    (rest : Option AttemptRow)
    → Found id state rows rest
    → Found id state (a ∷ rows) rest
later-Found id state a rows none h = tt
later-Found id state a rows (some b) h = (Memᴰ.tail h.0, h.1)

one-Found :
    (id : Text) (state : AttemptState) (rows : List AttemptRow)
    → Found id state rows (one id state rows)
unfolding one
one-Found id state [] = tt
one-Found id state (a ∷ rows) = elim (Bool-cases (is_attempt id state a)) [
  | inl e ↦ rw e (earlier-Found id state a rows (one id state rows) e (one-Found id state rows))
  | inr e ↦ rw e (later-Found id state a rows (one id state rows) (one-Found id state rows))
]

-- The reserve is a planned attempt of the order.
pub one-Memᴰ :
    (id : Text) (state : AttemptState) (rows : List AttemptRow) (found : AttemptRow)
    → one id state rows ≡ some found
    → Memᴰ found rows × (is_attempt id state found ≡ true)
one-Memᴰ id state rows found h = rw h at (one-Found id state rows)

module _ (id : Text) (reserve : AttemptRow) (reason : Text) (code report_text : Option Text)
    (now : ℕ) (rows : List AttemptRow) (d : Distinct (λ a. a.attempt_id) rows)
    (e : one id AttemptState.planned rows ≡ some reserve) where
  reserve_of_order : All (λ a. is_reserve reserve a ≡ true → a.order_id ≡ id) rows
  unfolding is_reserve
  reserve_of_order =
      let (m, is_planned) = one-Memᴰ id AttemptState.planned rows reserve e in
      let here : reserve.order_id ≡ id = text_eq→eq reserve.order_id id (ground arith) in
      map-All
        (λ a unique yes.
          ap (λ x. x.order_id) (unique (text_eq→eq a.attempt_id reserve.attempt_id (ground arith)))
          ∙ here)
        rows (Distinct-only (λ a. a.attempt_id) rows d m)

  is_reserve-attempt_id :
      (a : AttemptRow) → is_reserve reserve a ≡ true → a.attempt_id ≡ reserve.attempt_id
  unfolding is_reserve
  is_reserve-attempt_id a h = text_eq→eq a.attempt_id reserve.attempt_id (ground arith)

  planned_is_reserve :
      is_attempt id AttemptState.planned reserve ≡ true → is_reserve reserve reserve ≡ true
  unfolding is_reserve
  planned_is_reserve h = rw (text_eq_refl reserve.attempt_id) (ground arith)

  reserve_alone : select_where (is_reserve reserve) rows ≡ reserve ∷ []
  reserve_alone =
      let (m, is_planned) = one-Memᴰ id AttemptState.planned rows reserve e in
      select_where_one (λ a. a.attempt_id) (is_reserve reserve) rows d is_reserve-attempt_id m
        (planned_is_reserve is_planned)

  -- Behind a promotion the reserve is the one live attempt of its order.
  pub live_promoted_attempts :
      select_where
        (is_attempt id AttemptState.live)
        (promoted_attempts id reserve reason code report_text now rows)
      ≡ live_values reason now reserve ∷ []
  live_promoted_attempts =
      rw
        (
          promoted_attempts_rows id reserve reason code report_text now rows,
          live_promoted id reserve reason code report_text now rows reserve_of_order,
          reserve_alone,
        )
        refl

  -- The live attempts of other orders are the same.
  pub live_promoted_attempts_other :
      (other : Text)
      → other ≢ id
      → select_where
          (is_attempt other AttemptState.live)
          (promoted_attempts id reserve reason code report_text now rows)
        ≡ select_where (is_attempt other AttemptState.live) rows
  live_promoted_attempts_other other differs =
      rw (promoted_attempts_rows id reserve reason code report_text now rows) (
        live_promoted_other id reserve reason code report_text now other differs rows
          reserve_of_order)
