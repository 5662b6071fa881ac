-- ===== src/Ex/QuoteList/Laws.antt =====
-- Which responses the quotes of a category can be read from.
use eltdx.Base.{
  ℕ, zero, suc, ◌+◌, ◌≤◌, ◌≡◌, ◌≢◌, refl, ap, false, List, [], ◌∷◌, ◌++◌, ◌*◌, take, drop, length,
  length-take, length-drop, ltb→le, ==_iff, length-append, Result, ok, err, value_error, ltb, ◌==◌,
  arith, Bool-cases, inl, inr, le→ltb,
}
use eltdx.Wire.{Bytes, slice, le_value}
use eltdx.Protocol.Text.{Text}
use eltdx.Ex.QuoteList.{
  Value, Names, assign, QuoteRow, sized, unpack_fields, unpack, parse_row, quote_loop, parse_quotes,
  futures_format, futures_names, hk_format, hk_names, keep, rstrip_zeros, lstrip_zeros,
}

pub sized-ok : (size : ℕ) (buffer : Bytes) → length buffer ≡ size → sized size buffer ≡ ok buffer
unfolding sized
sized-ok size buffer same = rw ((==_iff (length buffer) size).1 same) refl

-- Within the bytes there are, a slice has the size that is asked for.
pub slice-length :
    (at size : ℕ) (bs : Bytes) → at + size ≤ length bs → length (slice at size bs) ≡ size
slice-length at size bs inside = omega (arith, length-take size (drop at bs), length-drop at bs)

module _ {Float : Type 0} where
  -- The two ways in which an assignment can end.
  assign_short :
      (names : Names) (values : List (Value Float))
      → length names ≢ length values
      → assign names values ≡ err value_error
  unfolding assign
  assign_short [] [] differ = absurd (differ refl)
  assign_short [] (v ∷ vs) differ = refl
  assign_short (n ∷ ns) [] differ = refl
  assign_short (n ∷ ns) (v ∷ vs) differ =
      rw (assign_short ns vs (λ same. differ (ap suc same))) refl

  pub assign_even :
      (names : Names) (values : List (Value Float))
      → length names ≡ length values
      → (fields : List (Text × Value Float)) × (assign names values ≡ ok fields)
  unfolding assign
  assign_even [] [] same = ([], refl)
  assign_even [] (v ∷ vs) same = absurd (omega arith)
  assign_even (n ∷ ns) [] same = absurd (omega arith)
  assign_even (n ∷ ns) (v ∷ vs) same =
      let (fields, assigned) = assign_even ns vs (omega arith) in
      (keep n v fields, rw assigned refl)

module _ {Float : Type 0} (unpack_f : Bytes → Float) (gbk : Bytes → Text) where
  length-unpack_fields :
      (format : Text) (bs : Bytes) → length (unpack_fields unpack_f gbk format bs) ≡ length format
  unfolding unpack_fields
  length-unpack_fields [] bs = refl
  length-unpack_fields (c ∷ format) bs = ap suc (length-unpack_fields format (drop 4 bs))

  -- A buffer of the format's size gives as many values as the format has fields.
  pub length-unpack :
      (format : Text) (bs : Bytes)
      → length bs ≡ 4 * length format
      → (values : List (Value Float)) × (unpack unpack_f gbk format bs ≡ ok values)
        × (length values ≡ length format)
  unfolding unpack
  length-unpack format bs same = (
    unpack_fields unpack_f gbk format bs,
    rw (sized-ok (4 * length format) bs same) refl,
    length-unpack_fields format bs,
  )

  abbrev code_at : ℕ → Bytes → Text
  code_at at body = gbk (rstrip_zeros (lstrip_zeros (drop 1 (slice at 10 body))))

  futures_row :
      (market : ℕ) (code : Text) (body : Bytes) (at : ℕ)
      → at + 140 ≤ length body
      → parse_row unpack_f gbk futures_format futures_names market code body at ≡ err value_error
  unfolding parse_row
  futures_row market code body at room =
      let there : ltb (length body) (at + 140) ≡ false = le→ltb _ _ room in
      let (values, unpacked, many) =
        length-unpack futures_format (slice at 140 body) (slice-length at 140 body room) in
      let refused =
        assign_short futures_names values (λ same. absurd (omega (arith, same, many))) in
      rw there (rw unpacked (rw refused refl))

  -- For futures (category 3) every response that announces a quote and has room for one raises a
  -- `ValueError`: the row has 35 fields, and they are assigned to 34 names.
  pub parse_quotes_futures :
      (body : Bytes) (n : ℕ)
      → le_value (slice 0 2 body) ≡ suc n
      → 152 ≤ length body
      → parse_quotes unpack_f gbk 3 body ≡ err value_error
  unfolding parse_quotes quote_loop
  parse_quotes_futures body n some_rows room =
      let long : ltb (length body) 2 ≡ false = le→ltb _ _ (omega arith) in
      let coded : ltb (length body) 12 ≡ false = le→ltb _ _ (omega arith) in
      let counted = sized-ok 2 (slice 0 2 body) (slice-length 0 2 body (omega arith)) in
      let headed = sized-ok 10 (slice 2 10 body) (slice-length 2 10 body (omega arith)) in
      rw long (
        rw counted (
          rw some_rows (
            rw coded (
              rw headed (
                rw (futures_row (le_value (take 1 (slice 2 10 body))) (code_at 2 body) body 12 room)
                  refl)))))

  AtMostOne : Result (ℕ × List (QuoteRow Float)) → Type 0
  AtMostOne r = (row : ℕ × List (QuoteRow Float)) × (r ≡ ok row) × (length row.1 ≤ 1)

  hk_row :
      (market : ℕ) (code : Text) (body : Bytes) (at : ℕ)
      → AtMostOne (parse_row unpack_f gbk hk_format hk_names market code body at)
  unfolding parse_row AtMostOne
  hk_row market code body at = elim (Bool-cases (ltb (length body) (at + 140))) [
    | inl short ↦ rw short ((at + 290, []), refl, omega arith)
    | inr whole ↦
        let (values, unpacked, many) =
          length-unpack hk_format (slice at 140 body)
            (slice-length at 140 body (ltb→le _ _ whole)) in
        let (fields, assigned) = assign_even hk_names values (omega (arith, many)) in
        rw whole (
          rw unpacked (
            rw assigned (
              (at + 290, record { market = market; code = code; fields = fields } ∷ []),
              refl,
              omega arith,
            )))
  ]

  -- The rows of a response, at most as many as a number.
  abbrev pub Reads : ℕ → Result (List (QuoteRow Float)) → Type 0
  Reads n r = (rows : List (QuoteRow Float)) × (r ≡ ok rows) × (length rows ≤ n)

  hk_loop :
      (category n at : ℕ) (body : Bytes)
      → (category == 3) ≡ false
      → Reads n (quote_loop unpack_f gbk category n at body)
  unfolding quote_loop AtMostOne
  hk_loop category zero at body hk = ([], refl, omega arith)
  hk_loop category (suc n) at body hk =
      let (rows, read, few) = hk_loop category n (at + 10 + 290) body hk in
      elim (Bool-cases (ltb (length body) (at + 10))) [
        | inl short ↦ rw short ([], refl, omega arith)
        | inr whole ↦
            let (row, parsed, one) =
              hk_row (le_value (take 1 (slice at 10 body))) (code_at at body) body (at + 10) in
            let headed =
              sized-ok 10 (slice at 10 body) (slice-length at 10 body (ltb→le _ _ whole)) in
            rw whole (
              rw headed (
                rw hk (
                  rw parsed (
                    rw read
                      (row.1 ++ rows, refl, omega (arith, length-append row.1 rows, few, one))))))
      ]

  -- For any other category no response raises, however it is cut off, and no more rows are read than
  -- it announces.
  pub parse_quotes_hk :
      (category : ℕ) (body : Bytes)
      → (category == 3) ≡ false
      → Reads (le_value (slice 0 2 body)) (parse_quotes unpack_f gbk category body)
  unfolding parse_quotes
  parse_quotes_hk category body hk = elim (Bool-cases (ltb (length body) 2)) [
    | inl short ↦ rw short ([], refl, omega arith)
    | inr whole ↦
        let counted = sized-ok 2 (slice 0 2 body) (slice-length 0 2 body (ltb→le _ _ whole)) in
        rw whole (rw counted (hk_loop category (le_value (slice 0 2 body)) 2 body hk))
  ]
