-- ===== src/Offline/MinBar.antt =====
-- Minute bars: src/eltdx/offline/min_bar.py and src/eltdx/offline/write_min_bar.py.
pub mod Laws
pub mod Rows
use eltdx.Base.{
  ℕ, ◌+◌, ◌*◌, ◌/◌, ◌%◌, Bool, true, false, List, [], ◌∷◌, Option, none, some, Result, ok, err,
  ◌>>=◌, file_not_found, ltb, ◌==◌, if◌then◌else◌, struct_error,
}
use eltdx.Base.Int.{ℤ, pos, negsuc, sub_ℕ, scale, ◌+ℤ◌}
use eltdx.Wire.{Bytes, slice, le_value, pack_uint}
use eltdx.Wire.Records.{pack_row}
use eltdx.Offline.Floats.{Floats}
use eltdx.Offline.Append.{File, fmt_size, whole_records, last_record, append}

-- The date packed in two bytes.
abbrev pub decode_tdx_date : ℕ → ℕ × ℕ × ℕ
decode_tdx_date num = (num / 2048 + 2004, num % 2048 / 100, num % 2048 % 100)

abbrev pub encode_tdx_date : ℕ → ℕ → ℕ → ℤ
encode_tdx_date year month day = scale (sub_ℕ year 2004) 2048 +ℤ pos (month * 100 + day)

abbrev pub decode_tdx_time : ℕ → ℕ × ℕ
decode_tdx_time num = (num / 60, num % 60)

abbrev pub encode_tdx_time : ℕ → ℕ → ℕ
encode_tdx_time hour minute = hour * 60 + minute

-- `datetime_key`
abbrev pub Moment : Type 0
Moment = ℕ × ℕ × ℕ × ℕ × ℕ

-- `>` of two pairs of numbers whose first component is compared first, given the rest
abbrev pub after : ℕ → ℕ → Bool → Bool
after a b rest = if ltb b a then true else if a == b then rest else false

-- `a > b` on tuples
abbrev pub is_after : Moment → Moment → Bool
is_after (y, m, d, h, n) (y', m', d', h', n') =
    after y y' (after m m' (after d d' (after h h' (ltb n' n))))

abbrev pub pack_signed : ℕ → ℤ → Result Bytes
pack_signed size (pos n) = pack_uint size n
pack_signed size (negsuc n) = err struct_error

abbrev pub moment_of : Bytes → Moment
moment_of raw =
    let (year, month, day) = decode_tdx_date (le_value (slice 0 2 raw)) in
    let (hour, minute) = decode_tdx_time (le_value (slice 2 2 raw)) in
    (year, month, day, hour, minute)

-- `_last_datetime`
pub last_datetime : File → Option Moment
unfolding last_record
last_datetime file = elim (last_record file fmt_size) [
  | none ↦ none
  | some last ↦ some (moment_of last)
]

module _ (floats : Floats) where
  open floats use {Float, unpack_f, pack_f, of_nat, mul, div, round_int}

  pub record MinBar : Type 0 where
    pub year : ℕ
    pub month : ℕ
    pub day : ℕ
    pub hour : ℕ
    pub minute : ℕ
    pub open_price : Float
    pub high : Float
    pub low : Float
    pub close : Float
    pub volume : Float
    pub amount : Float
    pub reserved : ℕ
    pub raw : Bytes

  abbrev pub datetime_key : MinBar → Moment
  datetime_key bar = (bar.year, bar.month, bar.day, bar.hour, bar.minute)

  -- A price field: hundredths in `.5` files, a float in `.lc1` and `.lc5` files.
  abbrev pub read_price : Bool → Bytes → Float
  read_price true raw = div (of_nat (le_value raw)) (of_nat 100)
  read_price false raw = unpack_f raw

  -- The body of the loop of `_read_bars`.
  unfoldable pub decode_bar : Bool → Bytes → MinBar
  decode_bar integer_prices raw =
      let (year, month, day, hour, minute) = moment_of raw in
      record {
        year = year;
        month = month;
        day = day;
        hour = hour;
        minute = minute;
        open_price = read_price integer_prices (slice 4 4 raw);
        high = read_price integer_prices (slice 8 4 raw);
        low = read_price integer_prices (slice 12 4 raw);
        close = read_price integer_prices (slice 16 4 raw);
        volume = of_nat (le_value (slice 24 4 raw));
        amount = unpack_f (slice 20 4 raw);
        reserved = le_value (slice 28 4 raw);
        raw = raw;
      }

  abbrev pub read_bars : Bool → Bytes → List MinBar
  read_bars integer_prices = whole_records (decode_bar integer_prices)

  -- `read_5min_bar` for `true`, `read_min_bar` for `false`
  pub read_min_bar : Bool → File → Result (List MinBar)
  read_min_bar integer_prices none = err file_not_found
  read_min_bar integer_prices (some content) = ok (read_bars integer_prices content)

  abbrev pub bar_fields :
      MinBar → Result Bytes → Result Bytes → Result Bytes → Result Bytes → ℤ → List (Result Bytes)
  bar_fields bar open_price high low close volume_int =
      pack_signed 2 (encode_tdx_date bar.year bar.month bar.day)
      ∷ pack_uint 2 (encode_tdx_time bar.hour bar.minute)
      ∷ open_price
      ∷ high
      ∷ low
      ∷ close
      ∷ pack_f bar.amount
      ∷ pack_signed 4 volume_int
      ∷ pack_uint 4 bar.reserved
      ∷ []

  unfoldable pub encode_min_bar : MinBar → Result Bytes
  unfolding pack_row
  encode_min_bar bar = do
    volume_int ← round_int bar.volume
    pack_row (
        bar_fields bar (pack_f bar.open_price) (pack_f bar.high) (pack_f bar.low) (pack_f bar.close)
          volume_int)

  unfoldable pub encode_5min_bar : MinBar → Result Bytes
  unfolding pack_row
  encode_5min_bar bar = do
    open_int ← round_int (mul bar.open_price (of_nat 100))
    high_int ← round_int (mul bar.high (of_nat 100))
    low_int ← round_int (mul bar.low (of_nat 100))
    close_int ← round_int (mul bar.close (of_nat 100))
    volume_int ← round_int bar.volume
    pack_row (
        bar_fields bar (pack_signed 4 open_int) (pack_signed 4 high_int) (pack_signed 4 low_int)
          (pack_signed 4 close_int) volume_int)

  abbrev pub newer : Moment → MinBar → Bool
  newer last bar = is_after (datetime_key bar) last

  unfoldable pub append_min_bar : File → List MinBar → Result (ℕ × File)
  unfolding append last_datetime encode_min_bar
  append_min_bar = append encode_min_bar newer last_datetime fmt_size

  pub append_5min_bar : File → List MinBar → Result (ℕ × File)
  unfolding append last_datetime encode_5min_bar
  append_5min_bar = append encode_5min_bar newer last_datetime fmt_size

  abbrev pub write_min_bar : File → List MinBar → Result (ℕ × File)
  unfolding append_min_bar
  write_min_bar file bars = append_min_bar file bars

  abbrev pub write_5min_bar : File → List MinBar → Result (ℕ × File)
  unfolding append_5min_bar
  write_5min_bar file bars = append_5min_bar file bars
