-- ===== src/Ex/Range.antt =====
-- The bars between two dates: src/eltdx/ex/commands/get_history_bars_range.py. The sequence number
-- is a variable of the class, so the state of all requests of a process.
pub mod Sequence
use eltdx.Base.{
  ℕ, zero, suc, ◌+◌, ◌*◌, ◌/◌, ◌%◌, ◌<◌, ◌≤◌, ◌≡◌, refl, ap, sym, ◌∙◌, List, [], ◌∷◌, ◌++◌, length,
  map, Result, ok, err, ◌>>=◌, ◌>>◌, raise_if, value_error, ltb, ◌==◌, if◌then◌else◌, arith,
  Bool-cases, inl, inr, true, false, lt→ltb, ◌^◌, take, drop,
}
use eltdx.Wire.{Bytes, slice, le_value, le_bytes, pack_uint}
use eltdx.Wire.Records.{records_until, pack_row, concat, AllSized, records_until-concat}
use eltdx.Wire.Counted.{counted}
use eltdx.Ex.Transaction.{pack_text}

abbrev pub seqid_min : ℕ
seqid_min = 1

abbrev pub seqid_max : ℕ
seqid_max = 255

-- `_next_seqid`: the number, and what the class then holds
unfoldable pub next_seqid : ℕ → ℕ × ℕ
next_seqid seqid = (seqid, if ltb seqid seqid_max then suc seqid else seqid_min)

abbrev pub middle : Bytes
middle = 0x38 ∷ 0x92 ∷ 0x00 ∷ 0x01 ∷ 0x16 ∷ 0x00 ∷ 0x16 ∷ 0x00 ∷ 0x0d ∷ 0x24 ∷ []

abbrev pub request_package : ℕ → ℕ → Bytes → ℕ → ℕ → Result Bytes
request_package seqid market code start_date end_date = pack_row (
    ok (0x01 ∷ [])
    ∷ pack_uint 1 seqid
    ∷ ok middle
    ∷ pack_uint 1 market
    ∷ ok (pack_text 9 code)
    ∷ ok (0x07 ∷ 0x00 ∷ [])
    ∷ pack_uint 4 start_date
    ∷ pack_uint 4 end_date
    ∷ [])

-- `__init__`
unfoldable pub check_code : Bytes → Result (Unit {0})
check_code code = raise_if (length code == 0) value_error

-- `build_request` of a command that was made; the number is spent when a field does not fit.
unfoldable pub build_range : ℕ → Bytes → ℕ → ℕ → ℕ → Result Bytes × ℕ
unfolding next_seqid pack_row
build_range market code start_date end_date seqid =
    let next = next_seqid seqid in (request_package next.0 market code start_date end_date, next.1)

-- `ExInstrumentBar`, with its prices in `Float`.
pub record ExInstrumentBar (Float : Type 0) : Type 0 where
  pub open_price : Float
  pub high : Float
  pub low : Float
  pub close : Float
  pub position : ℕ
  pub trade : ℕ
  pub amount : Float
  pub year : ℕ
  pub month : ℕ
  pub day : ℕ
  pub hour : ℕ
  pub minute : ℕ
  pub raw : Bytes

-- `_parse_date` and `_parse_time`
abbrev pub parse_date : ℕ → ℕ × ℕ × ℕ
parse_date num = (num / 2048 + 2004, num % 2048 / 100, num % 2048 % 100)

abbrev pub parse_time : ℕ → ℕ × ℕ
parse_time num = (num / 60, num % 60)

module _ {Float : Type 0} (unpack_f : Bytes → Float) where
  -- The body of the loop of `parse_response`.
  abbrev pub decode_range_bar : Bytes → ExInstrumentBar Float
  decode_range_bar raw =
      let (year, month, day) = parse_date (le_value (slice 0 2 raw)) in
      let (hour, minute) = parse_time (le_value (slice 2 2 raw)) in
      record {
        open_price = unpack_f (slice 4 4 raw);
        high = unpack_f (slice 8 4 raw);
        low = unpack_f (slice 12 4 raw);
        close = unpack_f (slice 16 4 raw);
        position = le_value (slice 20 4 raw);
        trade = le_value (slice 24 4 raw);
        amount = unpack_f (slice 28 4 raw);
        year = year;
        month = month;
        day = day;
        hour = hour;
        minute = minute;
        raw = raw;
      }

  -- `parse_response`: twelve bytes are passed over, and the count stands behind them.
  unfoldable pub parse_range : Bytes → List (ExInstrumentBar Float)
  unfolding counted
  parse_range body = counted 14 32 decode_range_bar body
