-- ===== src/Offline/ExDaily/Laws.antt =====
-- The bytes of a daily bar of an extended market: all of its fields.
use eltdx.Base.{ℕ, ◌<◌, ◌≡◌, ap, List, [], ◌∷◌, length, ok, arith}
use eltdx.Wire.{Bytes, pack_uint, le_value, slice, u32_round}
use eltdx.Wire.Records.{Packed, pack_row-Packed, concat, length-concat, field_at}
use eltdx.Wire.Records.Packed.{none_packed, packed}
use eltdx.Offline.Floats.{Floats}
use eltdx.Offline.Daily.Laws.{pack_uint-ok}
use eltdx.Offline.ExDaily.{
  ExDailyBar, date_int, ex_daily_fields, encode_ex_daily_bar, decode_ex_daily_bar,
}

module _ (floats : Floats) where
  open floats use {Float, pack_f, unpack_f, pack_f_length}

  -- What the code relies on of `struct` and of the bar: a price is read back from the bytes that it
  -- was packed to.
  abbrev pub IsExact : Float → Type 0
  IsExact x = (bs : Bytes) → pack_f x ≡ ok bs → unpack_f bs ≡ x

  -- What the row of fields says: each is found where the reader looks for it.
  abbrev RowFields : ExDailyBar floats → Bytes → Type 0
  RowFields bar bs =
      (length bs ≡ 32)
      × (le_value (slice 0 4 bs) ≡ date_int floats bar)
      × (le_value (slice 20 4 bs) ≡ bar.amount)
      × (le_value (slice 24 4 bs) ≡ bar.volume)
      × (unpack_f (slice 4 4 bs) ≡ bar.open_price)
      × (unpack_f (slice 8 4 bs) ≡ bar.high)
      × (unpack_f (slice 12 4 bs) ≡ bar.low)
      × (unpack_f (slice 16 4 bs) ≡ bar.close)
      × (unpack_f (slice 28 4 bs) ≡ bar.settlement)

  int_field : (n : ℕ) (field bs : Bytes) → pack_uint 4 n ≡ ok bs → field ≡ bs → le_value field ≡ n
  int_field n field bs h e =
      let (same, range) = pack_uint-ok n bs h in rw (e, same) (u32_round n range)

  float_field :
      (x : Float) (field bs : Bytes)
      → IsExact x
      → pack_f x ≡ ok bs
      → field ≡ bs
      → unpack_f field ≡ x
  float_field x field bs exact h e = rw e (exact bs h)

  -- Every price of the bar is exact.
  abbrev pub HasExactPrices : ExDailyBar floats → Type 0
  HasExactPrices bar =
      IsExact bar.open_price
      × IsExact bar.high
      × IsExact bar.low
      × IsExact bar.close
      × IsExact bar.settlement

  row-RowFields :
      (bar : ExDailyBar floats) (rs : List Bytes)
      → HasExactPrices bar
      → Packed (ex_daily_fields floats bar) rs
      → RowFields bar (concat rs)
  row-RowFields bar _ (xo, xh, xl, xc, xs)
        (packed {r = d} d_e (
          packed {r = o} o_e (
            packed {r = h} h_e (
              packed {r = l} l_e (
                packed {r = c} c_e
                  (packed {r = a} a_e (packed {r = v} v_e (packed {r = s} s_e none_packed)))))))) =
      let d4 = ap length (pack_uint-ok (date_int floats bar) d d_e).0 in
      let o4 = pack_f_length bar.open_price o o_e in
      let h4 = pack_f_length bar.high h h_e in
      let l4 = pack_f_length bar.low l l_e in
      let c4 = pack_f_length bar.close c c_e in
      let a4 = ap length (pack_uint-ok bar.amount a a_e).0 in
      let v4 = ap length (pack_uint-ok bar.volume v v_e).0 in
      let s4 = pack_f_length bar.settlement s s_e in
      (
        length-concat 4 (d ∷ o ∷ h ∷ l ∷ c ∷ a ∷ v ∷ s ∷ [])
            (d4, (o4, (h4, (l4, (c4, (a4, (v4, (s4, tt)))))))),
        int_field (date_int floats bar) _ d d_e
            (field_at 4 [] d (o ∷ h ∷ l ∷ c ∷ a ∷ v ∷ s ∷ []) tt d4),
        int_field bar.amount _ a a_e (
            field_at 4 (d ∷ o ∷ h ∷ l ∷ c ∷ []) a (v ∷ s ∷ []) (d4, (o4, (h4, (l4, (c4, tt))))) a4),
        int_field bar.volume _ v v_e (
            field_at 4 (d ∷ o ∷ h ∷ l ∷ c ∷ a ∷ []) v (s ∷ [])
              (d4, (o4, (h4, (l4, (c4, (a4, tt)))))) v4),
        float_field bar.open_price _ o xo o_e
            (field_at 4 (d ∷ []) o (h ∷ l ∷ c ∷ a ∷ v ∷ s ∷ []) (d4, tt) o4),
        float_field bar.high _ h xh h_e
            (field_at 4 (d ∷ o ∷ []) h (l ∷ c ∷ a ∷ v ∷ s ∷ []) (d4, (o4, tt)) h4),
        float_field bar.low _ l xl l_e
            (field_at 4 (d ∷ o ∷ h ∷ []) l (c ∷ a ∷ v ∷ s ∷ []) (d4, (o4, (h4, tt))) l4),
        float_field bar.close _ c xc c_e
            (field_at 4 (d ∷ o ∷ h ∷ l ∷ []) c (a ∷ v ∷ s ∷ []) (d4, (o4, (h4, (l4, tt)))) c4),
        float_field bar.settlement _ s xs s_e (
            field_at 4 (d ∷ o ∷ h ∷ l ∷ c ∷ a ∷ v ∷ []) s []
              (d4, (o4, (h4, (l4, (c4, (a4, (v4, tt))))))) s4),
      )

  -- A bar that could be encoded fills one record, and all of its fields are read back, where its
  -- prices are exact and its month and day have two digits.
  pub decode-encode_ex_daily_bar :
      (bar : ExDailyBar floats) (bs : Bytes)
      → HasExactPrices bar
      → bar.month < 100
      → bar.day < 100
      → encode_ex_daily_bar floats bar ≡ ok bs
      → let read = decode_ex_daily_bar floats bs in
        (length bs ≡ 32)
        × (read.year ≡ bar.year)
        × (read.month ≡ bar.month)
        × (read.day ≡ bar.day)
        × (read.amount ≡ bar.amount)
        × (read.volume ≡ bar.volume)
        × (read.open_price ≡ bar.open_price)
        × (read.high ≡ bar.high)
        × (read.low ≡ bar.low)
        × (read.close ≡ bar.close)
        × (read.settlement ≡ bar.settlement)
  unfolding encode_ex_daily_bar decode_ex_daily_bar
  decode-encode_ex_daily_bar bar bs exact m d h =
      let (rs, each, joined) = pack_row-Packed _ bs h in
      let row : RowFields bar bs = rw joined (row-RowFields bar rs exact each) in
      let (size, date, amount, volume, o, hi, lo, c, s) = row in
      (
        size,
        omega (arith, date, m, d),
        omega (arith, date, m, d),
        omega (arith, date, m, d),
        amount,
        volume,
        o,
        hi,
        lo,
        c,
        s,
      )
