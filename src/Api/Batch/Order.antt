-- ===== src/Api/Batch/Order.antt =====
-- The order of the rows of a batch that was put together again.
use eltdx.Base.{
  ℕ, zero, suc, ◌≡◌, refl, sym, ap, ◌∙◌, true, false, List, [], ◌∷◌, ◌++◌, take, Result, ok, err,
  >>=-eq-ok, Bool-cases, if◌then◌else◌, inl, inr, ◌⊎◌, arith,
}
use eltdx.Protocol.Text.{Text, text_eq}
use eltdx.Protocol.Same.{text_eq→eq, text_eq_refl}
use eltdx.Protocol.Code.{normalize_code}
use eltdx.Api.Batch.{pop_row, behind, reorder}

-- How many of the codes that were asked for normalize to a full code.
abbrev pub counted : Result Text → Text → ℕ → ℕ
counted (ok code) full n = if text_eq code full then suc n else n
counted (err e) full n = n

abbrev pub times : Text → List Text → ℕ
times full [] = 0
times full (code ∷ asked) = counted (normalize_code code) full (times full asked)

module _ {Row : Type 0} (full_code : Row → Text) where
  -- Some of the codes in their order, each with a row of it.
  pub data InOrder : List Text → List Row → Type 0 where
    done : InOrder [] []
    absent :
        (code : Text) (codes : List Text) (out : List Row)
        → InOrder codes out
        → InOrder (code ∷ codes) out
    present :
        (code : Text) (codes : List Text) (r : Row) (out : List Row)
        → normalize_code code ≡ ok (full_code r)
        → InOrder codes out
        → InOrder (code ∷ codes) (r ∷ out)

  -- The rows with a full code, in their order.
  abbrev pub rows_of : Text → List Row → List Row
  rows_of full [] = []
  rows_of full (r ∷ rs) =
      let others = rows_of full rs in if text_eq (full_code r) full then r ∷ others else others

  rows_of-append :
      (full : Text) (rs others : List Row)
      → rows_of full (rs ++ others) ≡ rows_of full rs ++ rows_of full others
  rows_of-append full [] others = refl
  rows_of-append full (r ∷ rs) others = elim (Bool-cases (text_eq (full_code r) full)) [
    | inl same ↦ rw same (ap (◌∷◌ r) (rows_of-append full rs others))
    | inr differs ↦ rw differs (rows_of-append full rs others)
  ]

  -- Taking a row by its code takes the first one that has it,
  pop_row-same :
      (code : Text) (rs : List Row)
      → rows_of code rs
        ≡ (pop_row full_code code rs).0 ++ rows_of code ((pop_row full_code code rs).1)
  pop_row-same code [] = refl
  pop_row-same code (r ∷ rs) = elim (Bool-cases (text_eq (full_code r) code)) [
    | inl same ↦ rw same refl
    | inr differs ↦ rw differs (rw differs (pop_row-same code rs))
  ]

  -- where there is one,
  pop_row-found :
      (code : Text) (rs : List Row)
      → (((pop_row full_code code rs).0 ≡ []) × (rows_of code rs ≡ []))
        ⊎ ((r : Row) × ((pop_row full_code code rs).0 ≡ r ∷ []) × (full_code r ≡ code))
  pop_row-found code [] = inl (refl, refl)
  pop_row-found code (r ∷ rs) = elim (Bool-cases (text_eq (full_code r) code)) [
    | inl same ↦ rw same (inr (r, refl, text_eq→eq (full_code r) code same))
    | inr differs ↦ rw differs (pop_row-found code rs)
  ]

  -- and none of another code.
  pop_row-other :
      (code full : Text) (rs : List Row)
      → text_eq code full ≡ false
      → rows_of full ((pop_row full_code code rs).1) ≡ rows_of full rs
  pop_row-other code full [] other = refl
  pop_row-other code full (r ∷ rs) other = elim (Bool-cases (text_eq (full_code r) code)) [
    | inl same ↦
        let coded = text_eq→eq (full_code r) code same in
        let apart : text_eq (full_code r) full ≡ false = rw coded other in rw same (rw apart refl)
    | inr differs ↦
        let rest = pop_row-other code full rs other in
        elim (Bool-cases (text_eq (full_code r) full)) [
          | inl wanted ↦ rw differs (rw wanted (ap (◌∷◌ r) rest))
          | inr unwanted ↦ rw differs (rw unwanted rest)
        ]
  ]

  take_none : (n : ℕ) (rs : List Row) → rs ≡ [] → take n rs ≡ []
  take_none zero rs empty = refl
  take_none (suc n) rs empty = rw empty refl

  popped_same :
      (code : Text) (rs tail : List Row) (n : ℕ)
      → rows_of code tail ≡ take n (rows_of code ((pop_row full_code code rs).1))
      → rows_of code ((pop_row full_code code rs).0 ++ tail) ≡ take (suc n) (rows_of code rs)
  popped_same code rs tail n taken = elim (pop_row-found code rs) [
    | inl (nothing, none_left) ↦
        let same : rows_of code rs ≡ rows_of code ((pop_row full_code code rs).1) =
          pop_row-same code rs
          ∙ ap (λ front. front ++ rows_of code ((pop_row full_code code rs).1)) nothing in
        let empty : rows_of code ((pop_row full_code code rs).1) ≡ [] = sym same ∙ none_left in
        rw nothing (rw none_left (taken ∙ take_none n _ empty))
    | inr (r, found, coded) ↦
        let split : rows_of code rs ≡ r ∷ rows_of code ((pop_row full_code code rs).1) =
          pop_row-same code rs
          ∙ ap (λ front. front ++ rows_of code ((pop_row full_code code rs).1)) found in
        let kept : text_eq (full_code r) code ≡ true = rw coded (text_eq_refl code) in
        rw found (rw kept (rw split (ap (◌∷◌ r) taken)))
  ]

  popped_other :
      (code full : Text) (rs tail : List Row) (n : ℕ)
      → text_eq code full ≡ false
      → rows_of full tail ≡ take n (rows_of full ((pop_row full_code code rs).1))
      → rows_of full ((pop_row full_code code rs).0 ++ tail) ≡ take n (rows_of full rs)
  popped_other code full rs tail n other taken =
      let left = taken ∙ ap (take n) (pop_row-other code full rs other) in
      elim (pop_row-found code rs) [
        | inl (nothing, none_left) ↦ rw nothing left
        | inr (r, found, coded) ↦
            let apart : text_eq (full_code r) full ≡ false = rw coded other in
            rw found (rw apart left)
      ]

  popped :
      (code full : Text) (rs tail : List Row) (n : ℕ)
      → rows_of full tail ≡ take n (rows_of full ((pop_row full_code code rs).1))
      → rows_of full ((pop_row full_code code rs).0 ++ tail)
        ≡ take (counted (ok code) full n) (rows_of full rs)
  popped code full rs tail n taken = elim (Bool-cases (text_eq code full)) [
    | inl same ↦
        let e = text_eq→eq code full same in
        rw same (rw (← e) (popped_same code rs tail n (rw (← e) at taken)))
    | inr other ↦ rw other (popped_other code full rs tail n other taken)
  ]

  behind-ok :
      (found : List Row) (rest : Result (List Row)) (out : List Row)
      → behind full_code found rest ≡ ok out
      → (tail : List Row) × (rest ≡ ok tail) × (found ++ tail ≡ out)
  behind-ok found (ok tail) out h = (tail, refl, ground arith)
  behind-ok found (err e) out h = absurd (ground (arith, h))

  step-InOrder :
      (code c : Text) (asked : List Text) (rs tail : List Row)
      → normalize_code code ≡ ok c
      → InOrder asked tail
      → InOrder (code ∷ asked) ((pop_row full_code c rs).0 ++ tail)
  step-InOrder code c asked rs tail is_ok behind_it = elim (pop_row-found c rs) [
    | inl (nothing, none_left) ↦ rw nothing (absent code asked tail behind_it)
    | inr (r, found, coded) ↦ rw found (present code asked r tail (rw coded is_ok) behind_it)
  ]

  -- The rows of a batch that is put together again stand in the order of the codes that were asked
  -- for, each at a code that normalizes to its full code. Of the rows with one full code there are,
  -- in their order, the first as many as codes that were asked for normalize to it: none is lost
  -- while one is still asked for, and none comes twice.
  pub reorder-InOrder :
      (asked : List Text) (rs out : List Row)
      → reorder full_code asked rs ≡ ok out
      → InOrder asked out
        × ((full : Text) → rows_of full out ≡ take (times full asked) (rows_of full rs))
  unfolding reorder
  reorder-InOrder [] rs out h =
      let none_left : [] ≡ out = ground arith in rw (← none_left) (done, λ full. refl)
  reorder-InOrder (code ∷ asked) rs out h =
      let (c, is_ok, answered) = >>=-eq-ok (normalize_code code) _ h in
      let (tail, rest, joined) = behind-ok ((pop_row full_code c rs).0) _ out answered in
      let (ordered, taken) = reorder-InOrder asked ((pop_row full_code c rs).1) tail rest in
      rw (← joined) (
        step-InOrder code c asked rs tail is_ok ordered,
        λ full. rw is_ok (popped c full rs tail (times full asked) (taken full)),
      )
