-- ===== src/Ex/Transaction/Laws.antt =====
-- What the transaction commands read out of a response.
use eltdx.Base.{
  ℕ, zero, suc, ◌+◌, ◌*◌, ◌^◌, ◌<◌, ◌≤◌, ◌≡◌, refl, false, List, ◌++◌, length, length-append,
  append_assoc, drop-append, map, ltb, le→ltb, ltb→le, arith, All, Bool-cases, inl, inr,
}
use eltdx.Wire.{Bytes, slice, le_value, le_bytes, u16_round}
use eltdx.Wire.Records.{records_until, concat, AllSized, records_until-concat, length-records_until}
use eltdx.Ex.Transaction.{decode_record, record_size, parse_records, parse_response}

-- A response of sixteen bytes of head, whose last two hold the number of records, and the records,
-- is read as exactly these records; what follows them is left out.
pub parse_response_records :
    (head : Bytes) (rs : List Bytes) (after : Bytes)
    → length head ≡ 14
    → length rs < 2 ^ 16
    → AllSized record_size rs
    → parse_response (head ++ (le_bytes 2 (length rs) ++ (concat rs ++ after)))
      ≡ map decode_record rs
unfolding parse_response parse_records
parse_response_records head rs after h few sized =
    rw
      (
        long,
        number,
        u16_round (length rs) few,
        ← append_assoc head (le_bytes 2 (length rs)) (concat rs ++ after),
      )
      (records_until-concat record_size decode_record (head ++ le_bytes 2 (length rs)) rs after 16
        sized (omega (arith, length-append head (le_bytes 2 (length rs)), h)))
  where
    long : ltb (length (head ++ (le_bytes 2 (length rs) ++ (concat rs ++ after)))) 16 ≡ false
    long = le→ltb _ _ (
        omega (
          arith,
          length-append head (le_bytes 2 (length rs) ++ (concat rs ++ after)),
          length-append (le_bytes 2 (length rs)) (concat rs ++ after),
          h,
        ))

    number :
        slice 14 2 (head ++ (le_bytes 2 (length rs) ++ (concat rs ++ after)))
        ≡ le_bytes 2 (length rs)
    number = rw (drop-append 14 head (le_bytes 2 (length rs) ++ (concat rs ++ after)) h) refl

decode_record-valid :
    (raw : Bytes) → ((decode_record raw).second < 60) × ((decode_record raw).minute < 60)
decode_record-valid raw = (ground arith, omega arith)

records_until-All {ℓ ℓ'} :
    {A : Type ℓ} (P : A → Type ℓ') (size : ℕ) (f : Bytes → A) (n offset : ℕ) (bs : Bytes)
    → ((r : Bytes) → P (f r))
    → All P (records_until size f n offset bs)
unfolding records_until
records_until-All P size f zero offset bs h = tt
records_until-All P size f (suc n) offset bs h =
    elim (Bool-cases (ltb (length bs) (offset + size))) [
      | inl short ↦ rw short tt
      | inr fits ↦ rw fits (h _, records_until-All P size f n (offset + size) bs h)
    ]

-- Whatever the response says about the number of records: the minutes and the seconds that are
-- read are ones, and no record is read from behind the end.
pub parse_response_bounds :
    (body : Bytes)
    → All (λ r. (r.second < 60) × (r.minute < 60)) (parse_response body)
      × (length (parse_response body) * 16 ≤ length body)
unfolding parse_response parse_records
parse_response_bounds body = elim (Bool-cases (ltb (length body) 16)) [
  | inl short ↦ rw short (tt, omega arith)
  | inr long ↦
      let enough = ltb→le (length body) 16 long in
      let n = le_value (slice 14 2 body) in
      rw long (
        records_until-All _ 16 decode_record n 16 body decode_record-valid,
        omega (arith, (length-records_until 16 decode_record n 16 body).1 enough),
      )
]
