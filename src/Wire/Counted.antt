-- ===== src/Wire/Counted.antt =====
-- A response that begins with a header whose last two bytes count the records behind it.
use eltdx.Base.{
  ℕ, ◌+◌, ◌-◌, ◌*◌, ◌^◌, ◌<◌, ◌≤◌, ◌≡◌, sym, false, List, [], ◌++◌, map, length, length-append,
  append_assoc, Bool-cases, inl, inr, ltb, ltb→le, le→ltb, if◌then◌else◌, arith,
}
use eltdx.Wire.Le.{Bytes, slice, le_value, le_bytes, length-le_bytes, u16_round}
use eltdx.Wire.Records.{
  records_until, records_until-concat, length-records_until, slice-append, concat, AllSized,
}

-- `if len(body) < header: return []`, and then the records that are there, at most the count
unfoldable pub counted {ℓ} : {A : Type ℓ} → ℕ → ℕ → (Bytes → A) → Bytes → List A
unfolding records_until
counted header size f body =
    if ltb (length body) header
    then []
    else records_until size f (le_value (slice (header - 2) 2 body)) header body

-- A body of this form.
abbrev pub counted_body : Bytes → List Bytes → Bytes → Bytes
counted_body front rs rest = (front ++ le_bytes 2 (length rs)) ++ (concat rs ++ rest)

module _ {ℓ} {A : Type ℓ} (header size : ℕ) (f : Bytes → A) where
  -- The records of such a body are read, each by itself and in order, whatever stands behind them.
  pub counted-body :
      (front : Bytes) (rs : List Bytes) (rest : Bytes)
      → length front + 2 ≡ header
      → length rs < 2 ^ 16
      → AllSized size rs
      → counted header size f (counted_body front rs rest) ≡ map f rs
  unfolding counted
  counted-body front rs rest fits few sized =
      let count = le_bytes 2 (length rs) in
      let before : length (front ++ count) ≡ header =
        omega (arith, length-append front count, length-le_bytes 2 (length rs), fits) in
      let long : ltb (length (counted_body front rs rest)) header ≡ false =
        le→ltb _ _ (omega (arith, before, length-append (front ++ count) (concat rs ++ rest))) in
      let read : slice (header - 2) 2 (counted_body front rs rest) ≡ count =
        let at : header - 2 ≡ length front = omega (arith, fits) in
        rw (at, append_assoc front count (concat rs ++ rest))
          (slice-append front count (concat rs ++ rest) 2 (length-le_bytes 2 (length rs))) in
      rw long (
        rw read (
          rw (u16_round (length rs) few)
            (records_until-concat size f (front ++ count) rs rest header sized (sym before))))

  -- No more records are read than the header counts and than the body has room for.
  pub length-counted :
      (body : Bytes)
      → (length (counted header size f body) ≤ le_value (slice (header - 2) 2 body))
        × (length (counted header size f body) * size ≤ length body)
  unfolding counted
  length-counted body = elim (Bool-cases (ltb (length body) header)) [
    | inl short ↦ rw short (omega arith, omega arith)
    | inr whole ↦
        let bound =
          length-records_until size f (le_value (slice (header - 2) 2 body)) header body in
        rw whole (bound.0, omega (arith, bound.1 (ltb→le _ _ whole)))
  ]
