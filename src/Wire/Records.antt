-- ===== src/Wire/Records.antt =====
-- The loops over records of a fixed size that the parsers share.
use eltdx.Base.{
  ℕ, zero, suc, ◌+◌, ◌*◌, ◌≤◌, ◌≡◌, refl, ap, ap₂, sym, ◌∙◌, List, [], ◌∷◌, ◌++◌, map, length,
  length-append, take, drop, take-append, drop-append, append_assoc, All, ltb, le→ltb, ltb→le,
  false, Bool-cases, inl, inr, length-drop, length-take, take-append-drop, if◌then◌else◌, arith,
  Result, ok, ◌>>=◌, >>=-eq-ok,
}
use eltdx.Wire.Le.{Bytes, slice}

-- `for offset in range(offset, ..., size): f(data[offset:offset + size])`, for `n` rounds
unfoldable pub records {ℓ} : {A : Type ℓ} → ℕ → (Bytes → A) → ℕ → ℕ → Bytes → List A
records size f zero offset bs = []
records size f (suc n) offset bs = f (slice offset size bs) ∷ records size f n (offset + size) bs

-- `for _ in range(n): if offset + size > len(bs): break; ...; offset += size`
unfoldable pub records_until {ℓ} : {A : Type ℓ} → ℕ → (Bytes → A) → ℕ → ℕ → Bytes → List A
records_until size f zero offset bs = []
records_until size f (suc n) offset bs =
    if ltb (length bs) (offset + size)
    then []
    else f (slice offset size bs) ∷ records_until size f n (offset + size) bs

abbrev pub concat : List Bytes → Bytes
concat [] = []
concat (r ∷ rs) = r ++ concat rs

-- `struct.pack` of several fields: the first that is out of range raises.
unfoldable pub pack_row : List (Result Bytes) → Result Bytes
pack_row [] = ok []
pack_row (field ∷ fields) = do bs ← field; rest ← pack_row fields; ok (bs ++ rest)

abbrev pub AllSized : ℕ → List Bytes → Type 0
AllSized size = All (λ r. length r ≡ size)

pub length-concat :
    (size : ℕ) (rs : List Bytes) → AllSized size rs → length (concat rs) ≡ length rs * size
length-concat size [] h = omega arith
length-concat size (r ∷ rs) h =
    omega
      (arith, length-append r (concat rs), length-concat size rs h.1, h.0, mul_suc (length rs) size)
  where
    mul_suc : (n k : ℕ) → suc n * k ≡ k + n * k
    mul_suc n k = grind arith

pub concat-append : (rs ss : List Bytes) → concat (rs ++ ss) ≡ concat rs ++ concat ss
concat-append [] ss = refl
concat-append (r ∷ rs) ss =
    ap (◌++◌ r) (concat-append rs ss) ∙ sym (append_assoc r (concat rs) (concat ss))

-- The slice behind `before`.
pub slice-append :
    (before r after : Bytes) (size : ℕ)
    → length r ≡ size
    → slice (length before) size (before ++ (r ++ after)) ≡ r
slice-append before r after size h =
    rw (drop-append (length before) before (r ++ after) refl) (take-append size r after h)

pub regroup :
    (before r : Bytes) (rs : List Bytes) (after : Bytes)
    → before ++ ((r ++ concat rs) ++ after) ≡ (before ++ r) ++ (concat rs ++ after)
regroup before r rs after = simp append_assoc

pub first_slice :
    (before r : Bytes) (rs : List Bytes) (after : Bytes) (size offset : ℕ)
    → length r ≡ size
    → offset ≡ length before
    → slice offset size (before ++ ((r ++ concat rs) ++ after)) ≡ r
first_slice before r rs after size offset h e =
    rw (e, append_assoc r (concat rs) after) (slice-append before r (concat rs ++ after) size h)

pub more_room :
    (before r : Bytes) (rs : List Bytes) (after : Bytes) (size offset : ℕ)
    → length r ≡ size
    → offset ≡ length before
    → ltb (length (before ++ ((r ++ concat rs) ++ after))) (offset + size) ≡ false
more_room before r rs after size offset h e = le→ltb _ _ (
    omega (
      arith,
      length-append before ((r ++ concat rs) ++ after),
      length-append (r ++ concat rs) after,
      length-append r (concat rs),
      h,
      e,
    ))

pub next_offset :
    (before r : Bytes) (size offset : ℕ)
    → length r ≡ size
    → offset ≡ length before
    → offset + size ≡ length (before ++ r)
next_offset before r size offset h e = omega (arith, length-append before r, h, e)

module _ {ℓ} {A : Type ℓ} (size : ℕ) (f : Bytes → A) where
  -- Records written one behind another are read back, whatever stands in front and behind.
  pub records-concat :
      (before : Bytes) (rs : List Bytes) (after : Bytes) (offset : ℕ)
      → AllSized size rs
      → offset ≡ length before
      → records size f (length rs) offset (before ++ (concat rs ++ after)) ≡ map f rs
  unfolding records
  records-concat before [] after offset h e = refl
  records-concat before (r ∷ rs) after offset h e =
      ap₂ ◌∷◌ (ap f (first_slice before r rs after size offset h.0 e)) (
        rw (regroup before r rs after) (
          records-concat (before ++ r) rs after (offset + size) h.1
            (next_offset before r size offset h.0 e)))

  -- So too where the loop stops at a short rest, for as many rounds as there are records.
  pub records_until-concat :
      (before : Bytes) (rs : List Bytes) (after : Bytes) (offset : ℕ)
      → AllSized size rs
      → offset ≡ length before
      → records_until size f (length rs) offset (before ++ (concat rs ++ after)) ≡ map f rs
  unfolding records_until
  records_until-concat before [] after offset h e = refl
  records_until-concat before (r ∷ rs) after offset h e =
      rw (more_room before r rs after size offset h.0 e) (
        ap₂ ◌∷◌ (ap f (first_slice before r rs after size offset h.0 e)) (
          rw (regroup before r rs after) (
            records_until-concat (before ++ r) rs after (offset + size) h.1
              (next_offset before r size offset h.0 e))))

  -- The loop that stops early makes as many rounds as fit.
  pub length-records_until :
      (n offset : ℕ) (bs : Bytes)
      → (length (records_until size f n offset bs) ≤ n)
        × (offset ≤ length bs
            → offset + length (records_until size f n offset bs) * size ≤ length bs)
  unfolding records_until
  length-records_until zero offset bs = (omega arith, λ h. omega arith)
  length-records_until (suc n) offset bs = elim (Bool-cases (ltb (length bs) (offset + size))) [
    | inl short ↦ rw short (omega arith, λ h. omega arith)
    | inr fits ↦
        let ih = length-records_until n (offset + size) bs in
        rw fits (
          omega (arith, ih.0),
          λ h.
              let room = ih.1 (ltb→le _ _ fits) in
              omega
                (arith, room, suc_mul (length (records_until size f n (offset + size) bs)) size),
        )
  ]
    where
      suc_mul : (n k : ℕ) → suc n * k ≡ k + n * k
      suc_mul n k = grind arith

-- Bytes whose number is a multiple of the size are records one behind another.
pub split_records :
    (size n : ℕ) (bs : Bytes)
    → length bs ≡ n * size
    → (rs : List Bytes) × (concat rs ≡ bs) × AllSized size rs × (length rs ≡ n)
split_records size zero [] h = ([], refl, tt, refl)
split_records size zero (b ∷ bs) h = absurd (omega arith)
split_records size (suc n) bs h =
    let total : length bs ≡ size + n * size = grind (arith, h) in
    let rest : length (drop size bs) ≡ n * size = omega (arith, length-drop size bs, total) in
    let (rs, joined, sized, count) = split_records size n (drop size bs) rest in
    (
      take size bs ∷ rs,
      ap (◌++◌ (take size bs)) joined ∙ take-append-drop size bs,
      (omega (arith, length-take size bs, total), sized),
      ap suc count,
    )

-- The field that stands behind `before` in a row of fields of one size.
pub field_at :
    (size : ℕ) (before : List Bytes) (r : Bytes) (after : List Bytes)
    → AllSized size before
    → length r ≡ size
    → slice (length before * size) size (concat (before ++ r ∷ after)) ≡ r
field_at size before r after h hr =
    rw (← length-concat size before h, concat-append before (r ∷ after))
      (slice-append (concat before) r (concat after) size hr)

-- The bytes of the fields, one by one.
pub data Packed : List (Result Bytes) → List Bytes → Type 0 where
  none_packed : Packed [] []
  packed :
      {field : Result Bytes} {r : Bytes} {fields : List (Result Bytes)} {rs : List Bytes}
      → field ≡ ok r
      → Packed fields rs
      → Packed (field ∷ fields) (r ∷ rs)

pub pack_row-Packed :
    (fields : List (Result Bytes)) (bs : Bytes)
    → pack_row fields ≡ ok bs
    → (rs : List Bytes) × Packed fields rs × (bs ≡ concat rs)
unfolding pack_row
pack_row-Packed [] bs h = ([], none_packed, ground arith)
pack_row-Packed (field ∷ fields) bs h =
    let (r, e, later) = >>=-eq-ok field _ h in
    let (more, e', done) = >>=-eq-ok (pack_row fields) _ later in
    let (rs, each, joined) = pack_row-Packed fields more e' in
    let whole : r ++ more ≡ bs = ground arith in
    (r ∷ rs, packed e each, sym whole ∙ ap (◌++◌ r) joined)
