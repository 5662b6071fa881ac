-- ===== src/Ex/Transaction.antt =====
-- The transaction commands: src/eltdx/ex/commands/get_transaction.py. A code is given by its UTF-8
-- bytes.
pub mod Laws
use eltdx.Base.{
  ℕ, ◌+◌, ◌-◌, ◌*◌, ◌/◌, ◌%◌, ◌^◌, Bool, true, false, List, [], ◌∷◌, ◌++◌, take, replicate, length,
  Result, ok, err, ◌>>=◌, ◌>>◌, raise_if, value_error, struct_error, ltb, ◌==◌, if◌then◌else◌,
}
use eltdx.Base.Int.{ℤ, pos, negsuc}
use eltdx.Wire.{Bytes, slice, le_value, le_bytes, pack_uint}
use eltdx.Wire.Records.{records_until, pack_row}

pub record ExTransactionRecord : Type 0 where
  pub hour : ℕ
  pub minute : ℕ
  pub second : ℕ
  pub price : ℕ
  pub volume : ℕ
  pub zengcang : ℤ
  pub nature : ℕ
  pub raw : Bytes

-- Four bytes as a signed number, and `struct.pack("i", n)` of a number that is not negative
abbrev pub signed_value : Bytes → ℤ
signed_value bs = let n = le_value bs in if ltb n (2 ^ 31) then pos n else negsuc (2 ^ 32 - n - 1)

abbrev pub pack_signed : ℕ → Result Bytes
pack_signed n = if ltb n (2 ^ 31) then ok (le_bytes 4 n) else err struct_error

-- `struct.pack("9s", bs)`: cut off, or filled up with zeros
abbrev pub pack_text : ℕ → Bytes → Bytes
pack_text size bs = take size (bs ++ replicate size 0)

-- The seconds share a field with the nature of the trade; what is no second is taken for 0.
abbrev pub second_of : ℕ → ℕ
second_of direction = if ltb 59 (direction % 10000) then 0 else direction % 10000

-- The body of the loop of `_parse_records`.
abbrev pub decode_record : Bytes → ExTransactionRecord
decode_record raw = record {
  hour = le_value (slice 0 2 raw) / 60;
  minute = le_value (slice 0 2 raw) % 60;
  second = second_of (le_value (slice 14 2 raw));
  price = le_value (slice 2 4 raw);
  volume = le_value (slice 6 4 raw);
  zengcang = signed_value (slice 10 4 raw);
  nature = le_value (slice 14 2 raw) / 10000;
  raw = raw;
}

abbrev pub record_size : ℕ
record_size = 16

unfoldable pub parse_records : Bytes → ℕ → ℕ → List ExTransactionRecord
unfolding records_until
parse_records body start num = records_until record_size decode_record num start body

-- `parse_response` of both commands
unfoldable pub parse_response : Bytes → List ExTransactionRecord
unfolding parse_records
parse_response body =
    if ltb (length body) 16 then [] else parse_records body 16 (le_value (slice 14 2 body))

-- What both constructors refuse.
abbrev pub check_page : Bytes → ℕ → Result (Unit {0})
check_page code count = do
  raise_if (length code == 0) value_error
  raise_if (count == 0) value_error

abbrev pub today_header : Bytes
today_header = 1 ∷ 1 ∷ 8 ∷ 0 ∷ 3 ∷ 1 ∷ 18 ∷ 0 ∷ 18 ∷ 0 ∷ 252 ∷ 35 ∷ []

abbrev pub history_header : Bytes
history_header = 1 ∷ 1 ∷ 48 ∷ 0 ∷ 2 ∷ 1 ∷ 22 ∷ 0 ∷ 22 ∷ 0 ∷ 6 ∷ 36 ∷ []

-- The constructor and `build_request` of `GetExTransactionDataCmd`
unfoldable pub build_today : ℕ → Bytes → ℕ → ℕ → Result Bytes
unfolding pack_row
build_today market code start count = do
  check_page code count
  row ←
      pack_row
        (pack_uint 1 market ∷ ok (pack_text 9 code) ∷ pack_signed start ∷ pack_uint 2 count ∷ [])
  ok (today_header ++ row)

-- Those of `GetExHistoryTransactionDataCmd`
unfoldable pub build_history : ℕ → Bytes → ℕ → ℕ → ℕ → Result Bytes
unfolding pack_row
build_history market code date start count = do
  check_page code count
  row ← pack_row (
      pack_uint 4 date
      ∷ pack_uint 1 market
      ∷ ok (pack_text 9 code)
      ∷ pack_signed start
      ∷ pack_uint 2 count
      ∷ [])
  ok (history_header ++ row)
