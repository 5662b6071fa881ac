-- ===== src/Ex/Minute.antt =====
-- The minute points of a day: src/eltdx/ex/commands/get_minute_time.py.
use eltdx.Base.{
  ℕ, ◌/◌, ◌%◌, List, [], ◌∷◌, ◌++◌, length, Result, ok, ◌>>=◌, ◌>>◌, raise_if, value_error, ◌==◌,
}
use eltdx.Wire.{Bytes, slice, le_value, pack_uint}
use eltdx.Wire.Records.{pack_row}
use eltdx.Wire.Counted.{counted}
use eltdx.Ex.Transaction.{pack_text}

pub record ExMinuteBar (Float : Type 0) : Type 0 where
  pub hour : ℕ
  pub minute : ℕ
  pub price : Float
  pub avg_price : Float
  pub volume : ℕ
  pub open_interest : ℕ
  pub raw : Bytes

module _ {Float : Type 0} (unpack_f : Bytes → Float) where
  -- The body of the loop of `_parse_records`.
  abbrev pub decode_minute : Bytes → ExMinuteBar Float
  decode_minute raw =
      let time = le_value (slice 0 2 raw) in
      record {
        hour = time / 60;
        minute = time % 60;
        price = unpack_f (slice 2 4 raw);
        avg_price = unpack_f (slice 6 4 raw);
        volume = le_value (slice 10 4 raw);
        open_interest = le_value (slice 14 4 raw);
        raw = raw;
      }

  -- `parse_response` of today's points, behind the market, the code and the count
  unfoldable pub parse_minutes : Bytes → List (ExMinuteBar Float)
  unfolding counted
  parse_minutes body = counted 12 18 decode_minute body

  -- `parse_response` of another day's points
  unfoldable pub parse_history_minutes : Bytes → List (ExMinuteBar Float)
  unfolding counted
  parse_history_minutes body = counted 20 18 decode_minute body

abbrev minute_header : Bytes
minute_header = 1 ∷ 7 ∷ 8 ∷ 0 ∷ 1 ∷ 1 ∷ 0x0c ∷ 0 ∷ 0x0c ∷ 0 ∷ 0x0b ∷ 0x24 ∷ []

abbrev history_minute_header : Bytes
history_minute_header = 1 ∷ 1 ∷ 0x30 ∷ 0 ∷ 1 ∷ 1 ∷ 0x10 ∷ 0 ∷ 0x10 ∷ 0 ∷ 0x0c ∷ 0x24 ∷ []

-- The constructors and `build_request`.
pub build_minutes : ℕ → Bytes → Result Bytes
unfolding pack_row
build_minutes market code = do
  raise_if (length code == 0) value_error
  row ← pack_row (pack_uint 1 market ∷ ok (pack_text 9 code) ∷ [])
  ok (minute_header ++ row)

pub build_history_minutes : ℕ → Bytes → ℕ → Result Bytes
unfolding pack_row
build_history_minutes market code date = do
  raise_if (length code == 0) value_error
  row ← pack_row (pack_uint 4 date ∷ pack_uint 1 market ∷ ok (pack_text 9 code) ∷ [])
  ok (history_minute_header ++ row)
