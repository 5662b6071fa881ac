-- ===== src/Ex/Instruments/Laws.antt =====
-- What the lists of the extended markets are read from.
use eltdx.Base.{
  ◌^◌, ◌<◌, ◌≡◌, ap, false, List, [], ◌∷◌, map, length, All, arith, Bool-cases, inl, inr,
}
use eltdx.Wire.{Bytes}
use eltdx.Wire.Records.{AllSized}
use eltdx.Wire.Counted.{counted, counted-body, counted_body}
use eltdx.Protocol.Text.{Text}
use eltdx.Ex.Instruments.{
  ExMarketInfo, is_unused, skip_unused, decode_market, parse_markets, decode_info, parse_infos,
}
use eltdx.Ex.Minute.{decode_minute, parse_minutes}
use eltdx.Ex.Range.{decode_range_bar, parse_range}

skip_unused-used :
    (infos : List ExMarketInfo) → All (λ info. is_unused info ≡ false) (skip_unused infos)
skip_unused-used [] = tt
skip_unused-used (info ∷ infos) = elim (Bool-cases (is_unused info)) [
  | inl unused ↦ rw unused (skip_unused-used infos)
  | inr used ↦ rw used (used, skip_unused-used infos)
]

module _ (gbk : Bytes → Text) where
  -- A list of markets is read from the 64 bytes of each of the records that its header counts, in
  -- order and without the slots that are not used; no market it gives is such a slot.
  pub parse_markets_used :
      (rs : List Bytes) (rest : Bytes)
      → length rs < 2 ^ 16
      → AllSized 64 rs
      → (parse_markets gbk (counted_body [] rs rest) ≡ skip_unused (map (decode_market gbk) rs))
        × All (λ info. is_unused info ≡ false) (parse_markets gbk (counted_body [] rs rest))
  unfolding parse_markets
  parse_markets_used rs rest few sized = (
    ap skip_unused (counted-body 2 64 (decode_market gbk) [] rs rest (omega arith) few sized),
    skip_unused-used (counted 2 64 (decode_market gbk) (counted_body [] rs rest)),
  )

  parse_infos_body :
      (front : Bytes) (rs : List Bytes) (rest : Bytes)
      → length front ≡ 4
      → length rs < 2 ^ 16
      → AllSized 64 rs
      → parse_infos gbk (counted_body front rs rest) ≡ map (decode_info gbk) rs
  unfolding parse_infos
  parse_infos_body front rs rest four few sized =
      counted-body 6 64 (decode_info gbk) front rs rest (omega (arith, four)) few sized

module _ {Float : Type 0} (unpack_f : Bytes → Float) where
  parse_minutes_body :
      (front : Bytes) (rs : List Bytes) (rest : Bytes)
      → length front ≡ 10
      → length rs < 2 ^ 16
      → AllSized 18 rs
      → parse_minutes unpack_f (counted_body front rs rest) ≡ map (decode_minute unpack_f) rs
  unfolding parse_minutes
  parse_minutes_body front rs rest ten few sized =
      counted-body 12 18 (decode_minute unpack_f) front rs rest (omega (arith, ten)) few sized

  parse_range_body :
      (front : Bytes) (rs : List Bytes) (rest : Bytes)
      → length front ≡ 12
      → length rs < 2 ^ 16
      → AllSized 32 rs
      → parse_range unpack_f (counted_body front rs rest) ≡ map (decode_range_bar unpack_f) rs
  unfolding parse_range
  parse_range_body front rs rest twelve few sized =
      counted-body 14 32 (decode_range_bar unpack_f) front rs rest (omega (arith, twelve)) few sized
