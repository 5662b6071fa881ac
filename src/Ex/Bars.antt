-- ===== src/Ex/Bars.antt =====
-- The bars of an instrument: src/eltdx/ex/commands/get_instrument_bars.py, with the dates of
-- src/eltdx/ex/datetime_.py.
pub mod Laws
use eltdx.Base.{
  ℕ, zero, suc, ◌+◌, ◌*◌, ◌/◌, ◌%◌, Bool, true, false, ◌||◌, List, [], ◌∷◌, ◌++◌, length, Result,
  ok, err, ◌>>=◌, ◌>>◌, raise_if, value_error, protocol_error, ltb, ◌==◌, if◌then◌else◌,
}
use eltdx.Wire.{Bytes, slice, le_value, pack_uint}
use eltdx.Wire.Records.{pack_row}
use eltdx.Ex.Transaction.{pack_text}
use eltdx.Ex.Range.{ExInstrumentBar}

-- A date and a time of day.
abbrev pub Moment : Type 0
Moment = ℕ × ℕ × ℕ × ℕ × ℕ

-- `get_datetime_minute` and `get_datetime_day`, of the four bytes that they read
abbrev pub minute_moment : Bytes → Moment
minute_moment raw =
    let zipday = le_value (slice 0 2 raw) in
    let tminutes = le_value (slice 2 2 raw) in
    (zipday / 2048 + 2004, zipday % 2048 / 100, zipday % 2048 % 100, tminutes / 60, tminutes % 60)

abbrev pub day_moment : Bytes → Moment
day_moment raw =
    let zipday = le_value raw in (zipday / 10000, zipday % 10000 / 100, zipday % 100, 15, 0)

abbrev pub is_minute_category : ℕ → Bool
is_minute_category category = ltb category 4 || (category == 7 || category == 8)

abbrev pub moment_of : ℕ → Bytes → Moment
moment_of category raw = if is_minute_category category then minute_moment raw else day_moment raw

-- `get_datetime`, which raises where fewer than four bytes are left, and its new position
unfoldable pub get_datetime : ℕ → Bytes → ℕ → Result (Moment × ℕ)
get_datetime category body at =
    if ltb (length body) (at + 4)
    then err protocol_error
    else ok (moment_of category (slice at 4 body), at + 4)

abbrev pub bars_behind :
    {Float : Type 0}
    → ExInstrumentBar Float
    → Result (List (ExInstrumentBar Float))
    → Result (List (ExInstrumentBar Float))
bars_behind bar rest = do bars ← rest; ok (bar ∷ bars)

module _ {Float : Type 0} (unpack_f : Bytes → Float) where
  -- A bar by its date, the 28 bytes behind it and all 32 bytes. The amount is a second reading of
  -- the bytes of the position.
  abbrev pub bar_of : Moment → Bytes → Bytes → ExInstrumentBar Float
  bar_of (year, month, day, hour, minute) fields raw = record {
    open_price = unpack_f (slice 0 4 fields);
    high = unpack_f (slice 4 4 fields);
    low = unpack_f (slice 8 4 fields);
    close = unpack_f (slice 12 4 fields);
    position = le_value (slice 16 4 fields);
    trade = le_value (slice 20 4 fields);
    amount = unpack_f (slice 16 4 fields);
    year = year;
    month = month;
    day = day;
    hour = hour;
    minute = minute;
    raw = raw;
  }

  -- The loop of `parse_response`.
  unfoldable pub bars_loop : ℕ → ℕ → ℕ → Bytes → Result (List (ExInstrumentBar Float))
  unfolding get_datetime
  bars_loop category zero at body = ok []
  bars_loop category (suc n) at body =
      let rest = bars_loop category n (at + 32) body in
      do
        (moment, behind) ← get_datetime category body at
        if ltb (length body) (behind + 28)
            then ok []
            else bars_behind (bar_of moment (slice behind 28 body) (slice at 32 body)) rest

  -- `parse_response`
  unfoldable pub parse_bars : ℕ → Bytes → Result (List (ExInstrumentBar Float))
  parse_bars category body =
      if ltb (length body) 20
      then ok []
      else bars_loop category (le_value (slice 18 2 body)) 20 body

abbrev bars_header : Bytes
bars_header = 1 ∷ 1 ∷ 8 ∷ 0x6a ∷ 1 ∷ 1 ∷ 0x16 ∷ 0 ∷ 0x16 ∷ 0 ∷ 0xff ∷ 0x23 ∷ []

-- The constructor and `build_request`.
pub build_bars : ℕ → ℕ → Bytes → ℕ → ℕ → Result Bytes
unfolding pack_row
build_bars category market code start count = do
  raise_if (length code == 0) value_error
  raise_if (count == 0) value_error
  row ← pack_row (
      pack_uint 1 market
      ∷ ok (pack_text 9 code)
      ∷ pack_uint 2 category
      ∷ pack_uint 2 1
      ∷ pack_uint 4 start
      ∷ pack_uint 2 count
      ∷ [])
  ok (bars_header ++ row)
