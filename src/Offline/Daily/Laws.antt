-- ===== src/Offline/Daily/Laws.antt =====
-- The bytes of a daily bar: `encode_daily_bar` against `read_daily_bar`.
use eltdx.Base.{
  ℕ, ◌^◌, ◌<◌, ◌≡◌, refl, ap, List, [], ◌∷◌, ◌++◌, length, map, some, ok, >>=-eq-ok, ltb, ltb→lt,
  All-append, arith, Bool-cases, inl, inr,
}
use eltdx.Base.Int.{ℤ, pos, negsuc}
use eltdx.Wire.{Bytes, pack_uint, le_bytes, le_value, slice, u32_round}
use eltdx.Wire.Records.{Packed, pack_row-Packed, concat, AllSized, field_at, length-concat}
use eltdx.Wire.Records.Packed.{none_packed, packed}
use eltdx.Offline.Floats.{Floats}
use eltdx.Offline.Append.{new_bars}
use eltdx.Offline.Append.Laws.{Encoded}
use eltdx.Offline.Append.Reading.{whole_records-append}
use eltdx.Offline.Daily.{
  DailyBar, date_int, daily_fields, daily_bars, decode_daily_bar, encode_daily_bar,
  append_daily_bar, get_last_bar_date, later, pack_int,
}

-- A field that could be packed has its width, and the number was in range.
pub pack_uint-ok : (n : ℕ) (bs : Bytes) → pack_uint 4 n ≡ ok bs → (bs ≡ le_bytes 4 n) × (n < 2 ^ 32)
pack_uint-ok n bs h = elim (Bool-cases (ltb n 4294967296)) [
  | inl fits ↦ (ground arith, ltb→lt n 4294967296 fits)
  | inr large ↦ absurd (ground arith)
]

length-pack_int : (n : ℤ) (bs : Bytes) → pack_int n ≡ ok bs → length bs ≡ 4
length-pack_int (pos n) bs h = ap length (pack_uint-ok n bs h).0
length-pack_int (negsuc n) bs h = absurd (ground arith)

module _ (floats : Floats) where
  open floats use {Float, pack_f, pack_f_length, round_int, div}

  -- What `encode_daily_bar` writes: eight fields of four bytes, the first the date and the last the
  -- flag.
  data DailyFields (bar : DailyBar floats) : List Bytes → Type 0 where
    fields :
        {open_price high low close amount volume : Bytes}
        → date_int floats bar < 2 ^ 32
        → bar.adjust_flag < 2 ^ 32
        → AllSized 4 (open_price ∷ high ∷ low ∷ close ∷ amount ∷ volume ∷ [])
        → DailyFields bar (
            le_bytes 4 (date_int floats bar)
            ∷ open_price
            ∷ high
            ∷ low
            ∷ close
            ∷ amount
            ∷ volume
            ∷ le_bytes 4 bar.adjust_flag
            ∷ [])

  row-DailyFields :
      (bar : DailyBar floats) (o h l c v : ℤ) (rs : List Bytes)
      → Packed (daily_fields floats bar o h l c v) rs
      → DailyFields bar rs
  row-DailyFields bar o h l c v rs
        (packed {r = date} date_e (
          packed open_e (
            packed high_e (
              packed low_e (
                packed close_e
                  (packed amount_e (packed volume_e (packed {r = flag} flag_e none_packed)))))))) =
      let (date_bytes, date_range) = pack_uint-ok (date_int floats bar) date date_e in
      let (flag_bytes, flag_range) = pack_uint-ok bar.adjust_flag flag flag_e in
      rw (date_bytes, flag_bytes)
        (fields date_range flag_range (
          length-pack_int o _ open_e,
          (
            length-pack_int h _ high_e,
            (
              length-pack_int l _ low_e,
              (
                length-pack_int c _ close_e,
                (pack_f_length bar.amount _ amount_e, (length-pack_int v _ volume_e, tt)),
              ),
            ),
          ),
        ))

  encode_daily_bar-DailyFields :
      (p v : Float) (bar : DailyBar floats) (bs : Bytes)
      → encode_daily_bar floats p v bar ≡ ok bs
      → (rs : List Bytes) × DailyFields bar rs × (bs ≡ concat rs)
  unfolding encode_daily_bar
  encode_daily_bar-DailyFields p v bar bs h0 =
      let (open_int, e1, h1) = >>=-eq-ok (round_int (div bar.open_price p)) _ h0 in
      let (high_int, e2, h2) = >>=-eq-ok (round_int (div bar.high p)) _ h1 in
      let (low_int, e3, h3) = >>=-eq-ok (round_int (div bar.low p)) _ h2 in
      let (close_int, e4, h4) = >>=-eq-ok (round_int (div bar.close p)) _ h3 in
      let (volume_int, e5, h5) = >>=-eq-ok (round_int (div bar.volume v)) _ h4 in
      let (rs, each, joined) = pack_row-Packed _ bs h5 in
      (rs, row-DailyFields bar open_int high_int low_int close_int volume_int rs each, joined)

  fields-read :
      (bar : DailyBar floats) (rs : List Bytes)
      → DailyFields bar rs
      → (length (concat rs) ≡ 32)
        × (slice 0 4 (concat rs) ≡ le_bytes 4 (date_int floats bar))
        × (slice 28 4 (concat rs) ≡ le_bytes 4 bar.adjust_flag)
        × (date_int floats bar < 2 ^ 32)
        × (bar.adjust_flag < 2 ^ 32)
  fields-read bar rs (fields {open_price} {high} {low} {close} {amount} {volume} d f widths) =
      let date = le_bytes 4 (date_int floats bar) in
      let flag = le_bytes 4 bar.adjust_flag in
      let middle = open_price ∷ high ∷ low ∷ close ∷ amount ∷ volume ∷ [] in
      (
        length-concat 4 (date ∷ middle ++ (flag ∷ []))
            (refl, All-append (λ r. length r ≡ 4) middle (flag ∷ []) widths (refl, tt)),
        refl,
        field_at 4 (date ∷ middle) flag [] (refl, widths) refl,
        d,
        f,
      )

  -- A daily bar that could be encoded fills one record.
  pub length-encode_daily_bar :
      (p v : Float) (bar : DailyBar floats) (bs : Bytes)
      → encode_daily_bar floats p v bar ≡ ok bs
      → length bs ≡ 32
  length-encode_daily_bar p v bar bs h =
      let (rs, each, joined) = encode_daily_bar-DailyFields p v bar bs h in
      rw joined (fields-read bar rs each).0

  pub date-encode_daily_bar :
      (p v : Float) (bar : DailyBar floats) (bs : Bytes)
      → encode_daily_bar floats p v bar ≡ ok bs
      → le_value (slice 0 4 bs) ≡ date_int floats bar
  date-encode_daily_bar p v bar bs h =
      let (rs, each, joined) = encode_daily_bar-DailyFields p v bar bs h in
      let (size, date, flag, date_range, flag_range) = fields-read bar rs each in
      rw (joined, date) (u32_round (date_int floats bar) date_range)

  -- The date and the flag of an encoded bar are read back, where month and day have two digits.
  pub decode-encode_daily_bar :
      (p v p' v' : Float) (bar : DailyBar floats) (bs : Bytes)
      → bar.month < 100
      → bar.day < 100
      → encode_daily_bar floats p v bar ≡ ok bs
      → let read = decode_daily_bar floats p' v' bs in
        (read.year ≡ bar.year)
        × (read.month ≡ bar.month)
        × (read.day ≡ bar.day)
        × (read.adjust_flag ≡ bar.adjust_flag)
  unfolding decode_daily_bar
  decode-encode_daily_bar p v p' v' bar bs m d h =
      let (rs, each, joined) = encode_daily_bar-DailyFields p v bar bs h in
      let (size, date, flag, date_range, flag_range) = fields-read bar rs each in
      let date_read : le_value (slice 0 4 bs) ≡ date_int floats bar =
        rw (joined, date) (u32_round (date_int floats bar) date_range) in
      let flag_read : le_value (slice 28 4 bs) ≡ bar.adjust_flag =
        rw (joined, flag) (u32_round bar.adjust_flag flag_range) in
      (
        omega (arith, date_read, m, d),
        omega (arith, date_read, m, d),
        omega (arith, date_read, m, d),
        flag_read,
      )

  -- After a successful append a reader sees the bars it saw before, then the newer of the given
  -- bars, decoded from their encodings, and the count is right.
  pub daily_bars-append :
      (p v : Float) (content content' : Bytes) (bars : List (DailyBar floats)) (n : ℕ)
      → append_daily_bar floats p v (some content) bars ≡ ok (n, some content')
      → let fresh =
          new_bars
            (encode_daily_bar floats p v)
            (later floats)
            (get_last_bar_date floats (some content))
            bars in
        (ss : List Bytes) × Encoded
          (encode_daily_bar floats p v)
          (later floats)
          32
          (length-encode_daily_bar p v)
          fresh
          ss
        × (n ≡ length fresh)
        × (daily_bars floats p v content'
            ≡ daily_bars floats p v content ++ map (decode_daily_bar floats p v) ss)
  unfolding append_daily_bar
  daily_bars-append p v content content' bars n h =
      whole_records-append (encode_daily_bar floats p v) (later floats)
        (length-encode_daily_bar p v) (get_last_bar_date floats) (decode_daily_bar floats p v)
        content content' bars n h
