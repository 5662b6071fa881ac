-- ===== src/Offline/MinBar/Rows.antt =====
-- The bytes of a whole minute bar, and files of them.
use eltdx.Base.{
  ℕ, ◌+◌, ◌-◌, ◌*◌, ◌/◌, ◌%◌, ◌^◌, ◌<◌, ◌≤◌, ◌≡◌, ◌⊎◌, refl, ap, ap₂, sym, ◌∙◌, Bool, false, List,
  ◌++◌, length, length-append, map, some, Result, ok, >>=-eq-ok, ltb, ltb→lt, arith, Bool-cases,
  inl, inr,
}
use eltdx.Base.Int.{ℤ, pos, negsuc}
use eltdx.Wire.{Bytes, pack_uint, length-le_bytes, le_bytes, u16_round}
use eltdx.Wire.Records.{Packed, pack_row-Packed, concat, length-concat}
use eltdx.Wire.Records.Packed.{none_packed, packed}
use eltdx.Offline.Floats.{Floats}
use eltdx.Offline.Append.{new_bars}
use eltdx.Offline.Append.Laws.{Encoded}
use eltdx.Offline.Append.Reading.{whole_records-append}
use eltdx.Offline.MinBar.{
  encode_tdx_date, encode_tdx_time, pack_signed, moment_of, MinBar, datetime_key, bar_fields,
  encode_min_bar, encode_5min_bar, decode_bar, read_bars, newer, append_min_bar, last_datetime,
}
use eltdx.Offline.MinBar.Laws.{encode_tdx_date-pos, date_read}

pub pack_uint_size :
    (size n : ℕ) (bs : Bytes) → pack_uint size n ≡ ok bs → (bs ≡ le_bytes size n) × (n < 256 ^ size)
pack_uint_size size n bs h = elim (Bool-cases (ltb n (256 ^ size))) [
  | inl fits ↦ (ground arith, ltb→lt n (256 ^ size) fits)
  | inr large ↦ absurd (ground arith)
]

pub length-pack_signed :
    (size : ℕ) (n : ℤ) (bs : Bytes) → pack_signed size n ≡ ok bs → length bs ≡ size
length-pack_signed size (pos n) bs h =
    ap length (pack_uint_size size n bs h).0 ∙ length-le_bytes size n
length-pack_signed size (negsuc n) bs h = absurd (ground arith)

module _ (floats : Floats) where
  open floats use {Float, pack_f, pack_f_length, round_int, mul, of_nat}

  -- What the two formats can hold of a moment: the year is not before 2004, and no part of it runs
  -- into the next one.
  abbrev pub IsStorable : MinBar floats → Type 0
  IsStorable bar = (2004 ≤ bar.year) × (bar.month < 20) × (bar.day < 100) × (bar.minute < 60)

  bar_fields-moment :
      (bar : MinBar floats) (o h l c : Result Bytes) (v : ℤ) (rs : List Bytes)
      → IsStorable bar
      → Packed (bar_fields floats bar o h l c v) rs
      → moment_of (concat rs) ≡ datetime_key floats bar
  bar_fields-moment bar o h l c v _ (low, m, d, n)
        (packed {r = date} date_e (packed {r = time} time_e _)) =
      let minutes = encode_tdx_time bar.hour bar.minute in
      let (date_bytes, date_range) =
        pack_uint_size 2 (packed_date bar) date (
          ap (pack_signed 2) (sym (encode_tdx_date-pos bar.year bar.month bar.day low)) ∙ date_e) in
      let (time_bytes, time_range) = pack_uint_size 2 minutes time time_e in
      let whole : minutes / 60 ≡ bar.hour = omega (arith, n) in
      let part : minutes % 60 ≡ bar.minute = omega (arith, n) in
      rw
        (
          date_bytes,
          time_bytes,
          u16_round (packed_date bar) date_range,
          u16_round minutes time_range,
        )
        (ap₂ (λ (date : ℕ × ℕ × ℕ) (time : ℕ × ℕ). (date.0, date.1, date.2, time.0, time.1))
          (date_read bar.year bar.month bar.day low m d) (rw (whole, part) refl))
    where
      packed_date : MinBar floats → ℕ
      packed_date bar = (bar.year - 2004) * 2048 + (bar.month * 100 + bar.day)

  length-bar_fields :
      (bar : MinBar floats) (o h l c : Result Bytes) (v : ℤ) (rs : List Bytes)
      → Packed (bar_fields floats bar o h l c v) rs
      → ((bs : Bytes) → o ≡ ok bs → length bs ≡ 4)
      → ((bs : Bytes) → h ≡ ok bs → length bs ≡ 4)
      → ((bs : Bytes) → l ≡ ok bs → length bs ≡ 4)
      → ((bs : Bytes) → c ≡ ok bs → length bs ≡ 4)
      → length (concat rs) ≡ 32
  length-bar_fields bar o h l c v _
        (packed {r = date} date_e (
          packed {r = time} {rs = rest} time_e (
            packed o_e (
              packed h_e (
                packed l_e (
                  packed c_e
                    (packed amount_e (packed volume_e (packed reserved_e none_packed)))))))))
        o4 h4 l4 c4 =
      omega (
        arith,
        length-append date (time ++ concat rest),
        length-append time (concat rest),
        length-pack_signed 2 (encode_tdx_date bar.year bar.month bar.day) date date_e,
        length-pack_signed 2 (pos (encode_tdx_time bar.hour bar.minute)) time time_e,
        length-concat 4 rest (
          o4 _ o_e,
          (
            h4 _ h_e,
            (
              l4 _ l_e,
              (
                c4 _ c_e,
                (
                  pack_f_length bar.amount _ amount_e,
                  (
                    length-pack_signed 4 v _ volume_e,
                    (length-pack_signed 4 (pos bar.reserved) _ reserved_e, tt),
                  ),
                ),
              ),
            ),
          ),
        ),
      )

  pub length-encode_min_bar :
      (bar : MinBar floats) (bs : Bytes) → encode_min_bar floats bar ≡ ok bs → length bs ≡ 32
  unfolding encode_min_bar
  length-encode_min_bar bar bs h0 =
      let (v, e, h1) = >>=-eq-ok (round_int bar.volume) _ h0 in
      let (rs, each, joined) = pack_row-Packed _ bs h1 in
      ap length joined
      ∙ length-bar_fields bar _ _ _ _ v rs each (pack_f_length bar.open_price)
          (pack_f_length bar.high) (pack_f_length bar.low) (pack_f_length bar.close)

  moment-encode_min_bar :
      (bar : MinBar floats) (bs : Bytes)
      → IsStorable bar
      → encode_min_bar floats bar ≡ ok bs
      → moment_of bs ≡ datetime_key floats bar
  unfolding encode_min_bar
  moment-encode_min_bar bar bs storable h0 =
      let (v, e, h1) = >>=-eq-ok (round_int bar.volume) _ h0 in
      let (rs, each, joined) = pack_row-Packed _ bs h1 in
      ap moment_of joined ∙ bar_fields-moment bar _ _ _ _ v rs storable each

  module _ (bar : MinBar floats) (bs : Bytes) (h0 : encode_5min_bar floats bar ≡ ok bs) where
    -- The row of a `.5` file, and the four prices that it rounds.
    row_5min :
        (o h l c v : ℤ) × (rs : List Bytes) × Packed
          (bar_fields floats bar
            (pack_signed 4 o)
            (pack_signed 4 h)
            (pack_signed 4 l)
            (pack_signed 4 c)
            v)
          rs
        × (bs ≡ concat rs)
    unfolding encode_5min_bar
    row_5min =
        let (o, e1, h1) = >>=-eq-ok (round_int (mul bar.open_price (of_nat 100))) _ h0 in
        let (h, e2, h2) = >>=-eq-ok (round_int (mul bar.high (of_nat 100))) _ h1 in
        let (l, e3, h3) = >>=-eq-ok (round_int (mul bar.low (of_nat 100))) _ h2 in
        let (c, e4, h4) = >>=-eq-ok (round_int (mul bar.close (of_nat 100))) _ h3 in
        let (v, e5, h5) = >>=-eq-ok (round_int bar.volume) _ h4 in
        let (rs, each, joined) = pack_row-Packed _ bs h5 in (o, h, l, c, v, rs, each, joined)

    length-encode_5min_bar : length bs ≡ 32
    length-encode_5min_bar =
        let (o, h, l, c, v, rs, each, joined) = row_5min in
        ap length joined
        ∙ length-bar_fields bar _ _ _ _ v rs each (length-pack_signed 4 o) (length-pack_signed 4 h)
            (length-pack_signed 4 l) (length-pack_signed 4 c)

    moment-encode_5min_bar : IsStorable bar → moment_of bs ≡ datetime_key floats bar
    moment-encode_5min_bar storable =
        let (o, h, l, c, v, rs, each, joined) = row_5min in
        ap moment_of joined ∙ bar_fields-moment bar _ _ _ _ v rs storable each

  -- Both formats fill one record and keep the moment of every bar they can hold.
  pub min_bar-round_trip :
      (bar : MinBar floats) (bs : Bytes)
      → IsStorable bar
      → (encode_min_bar floats bar ≡ ok bs) ⊎ (encode_5min_bar floats bar ≡ ok bs)
      → (integer_prices : Bool)
      → (length bs ≡ 32)
        × (datetime_key floats (decode_bar floats integer_prices bs) ≡ datetime_key floats bar)
  unfolding decode_bar
  min_bar-round_trip bar bs storable (inl h) integer_prices =
      (length-encode_min_bar bar bs h, moment-encode_min_bar bar bs storable h)
  min_bar-round_trip bar bs storable (inr h) integer_prices =
      (length-encode_5min_bar bar bs h, moment-encode_5min_bar bar bs h storable)

  -- After a successful append of minute bars a reader sees the bars it saw before, then the later
  -- of the given bars, decoded from their encodings, and the count is right.
  pub min_bars-append :
      (content content' : Bytes) (bars : List (MinBar floats)) (n : ℕ)
      → append_min_bar floats (some content) bars ≡ ok (n, some content')
      → let fresh =
          new_bars (encode_min_bar floats) (newer floats) (last_datetime (some content)) bars in
        (ss : List Bytes) × Encoded
          (encode_min_bar floats)
          (newer floats)
          32
          length-encode_min_bar
          fresh
          ss
        × (n ≡ length fresh)
        × (read_bars floats false content'
            ≡ read_bars floats false content ++ map (decode_bar floats false) ss)
  unfolding append_min_bar
  min_bars-append content content' bars n h =
      whole_records-append (encode_min_bar floats) (newer floats) length-encode_min_bar
        last_datetime (decode_bar floats false) content content' bars n h
