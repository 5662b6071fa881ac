-- ===== src/Offline/ExDaily/Files.antt =====
-- Files of daily bars of an extended market: `append_ex_daily_bar` and `read_ex_daily_bar`.
use eltdx.Base.{
  ℕ, ◌≤◌, ◌≡◌, ap, ◌∙◌, List, [], ◌∷◌, ◌++◌, length, map, some, ok, All, All-weaken, ltb→le, le→ltb,
  arith,
}
use mathlib.Core.Option
use eltdx.Wire.{Bytes, le_value, slice, u32_round}
use eltdx.Wire.Records.{Packed, pack_row-Packed, concat, length-concat, field_at}
use eltdx.Wire.Records.Packed.{none_packed, packed}
use eltdx.Offline.Floats.{Floats}
use eltdx.Offline.Append.{fmt_size, new_bars, last_record}
use eltdx.Offline.Append.Laws.{Encoded}
use eltdx.Offline.Append.Reading.{whole_records-append}
use eltdx.Offline.Append.Again.{append_again}
use eltdx.Offline.Daily.Laws.{pack_uint-ok}
use eltdx.Offline.ExDaily.{
  ExDailyBar, date_int, ex_daily_fields, encode_ex_daily_bar, decode_ex_daily_bar, ex_daily_bars,
  append_ex_daily_bar, get_last_ex_bar_date, later,
}

module _ (floats : Floats) where
  open floats use {pack_f_length}

  row_head :
      (bar : ExDailyBar floats) (rs : List Bytes)
      → Packed (ex_daily_fields floats bar) rs
      → (length (concat rs) ≡ 32) × (le_value (slice 0 4 (concat rs)) ≡ date_int floats bar)
  row_head bar _
        (packed {r = d} d_e (
          packed {r = o} o_e (
            packed {r = h} h_e (
              packed {r = l} l_e (
                packed {r = c} c_e
                  (packed {r = a} a_e (packed {r = v} v_e (packed {r = s} s_e none_packed)))))))) =
      let (date, range) = pack_uint-ok (date_int floats bar) d d_e in
      let d4 = ap length date in
      (
        length-concat 4 (d ∷ o ∷ h ∷ l ∷ c ∷ a ∷ v ∷ s ∷ []) (
          d4,
          (
            pack_f_length bar.open_price o o_e,
            (
              pack_f_length bar.high h h_e,
              (
                pack_f_length bar.low l l_e,
                (
                  pack_f_length bar.close c c_e,
                  (
                    ap length (pack_uint-ok bar.amount a a_e).0,
                    (
                      ap length (pack_uint-ok bar.volume v v_e).0,
                      (pack_f_length bar.settlement s s_e, tt),
                    ),
                  ),
                ),
              ),
            ),
          ),
        ),
        ap le_value (field_at 4 [] d (o ∷ h ∷ l ∷ c ∷ a ∷ v ∷ s ∷ []) tt d4 ∙ date)
            ∙ u32_round (date_int floats bar) range,
      )

  pub length-encode_ex_daily_bar :
      (bar : ExDailyBar floats) (bs : Bytes)
      → encode_ex_daily_bar floats bar ≡ ok bs
      → length bs ≡ 32
  unfolding encode_ex_daily_bar
  length-encode_ex_daily_bar bar bs h =
      let (rs, each, joined) = pack_row-Packed _ bs h in ap length joined ∙ (row_head bar rs each).0

  date-encode_ex_daily_bar :
      (bar : ExDailyBar floats) (bs : Bytes)
      → encode_ex_daily_bar floats bar ≡ ok bs
      → le_value (slice 0 4 bs) ≡ date_int floats bar
  unfolding encode_ex_daily_bar
  date-encode_ex_daily_bar bar bs h =
      let (rs, each, joined) = pack_row-Packed _ bs h in
      ap (λ b. le_value (slice 0 4 b)) joined ∙ (row_head bar rs each).1

  last_date-last_record :
      (content r : Bytes)
      → last_record (some content) fmt_size ≡ some r
      → get_last_ex_bar_date floats (some content) ≡ some (le_value (slice 0 4 r))
  unfolding get_last_ex_bar_date last_record
  last_date-last_record content r h = ap (Option.map (λ last. le_value (slice 0 4 last))) h

  -- After a successful append a reader sees the bars it saw before, then the newer of the given
  -- bars, decoded from their encodings; and where the last of the given bars is the newest, an
  -- append of the same bars writes nothing and leaves the file as it is.
  pub ex_daily_bars-append :
      (content content' : Bytes) (bars : List (ExDailyBar floats)) (l : ExDailyBar floats) (n : ℕ)
      → All (λ b. date_int floats b ≤ date_int floats l) (bars ++ l ∷ [])
      → append_ex_daily_bar floats (some content) (bars ++ l ∷ []) ≡ ok (n, some content')
      → let fresh =
          new_bars
            (encode_ex_daily_bar floats)
            (later floats)
            (get_last_ex_bar_date floats (some content))
            (bars ++ l ∷ []) in
        ((ss : List Bytes) × Encoded
            (encode_ex_daily_bar floats)
            (later floats)
            32
            length-encode_ex_daily_bar
            fresh
            ss
          × (n ≡ length fresh)
          × (ex_daily_bars floats content'
              ≡ ex_daily_bars floats content ++ map (decode_ex_daily_bar floats) ss))
        × (append_ex_daily_bar floats (some content') (bars ++ l ∷ []) ≡ ok (0, some content'))
  unfolding append_ex_daily_bar
  ex_daily_bars-append content content' bars l n newest h = (
    whole_records-append (encode_ex_daily_bar floats) (later floats) length-encode_ex_daily_bar
        (get_last_ex_bar_date floats) (decode_ex_daily_bar floats) content content' (bars ++ l ∷ [])
        n h,
    append_again (encode_ex_daily_bar floats) (later floats) length-encode_ex_daily_bar
        (get_last_ex_bar_date floats) (λ r. le_value (slice 0 4 r)) (date_int floats)
        last_date-last_record date-encode_ex_daily_bar content content' bars l n
        (All-weaken _ _ (λ b below. le→ltb _ _ below) (bars ++ l ∷ []) newest)
        (λ last old.
          All-weaken _ _ (λ b below. le→ltb _ _ (omega (arith, below, ltb→le _ _ old)))
            (bars ++ l ∷ []) newest)
        h,
  )
