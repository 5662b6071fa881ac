-- ===== src/Offline/ExDaily.antt =====
-- Daily bars of the extended markets: src/eltdx/offline/ex_daily_bar.py and
-- src/eltdx/offline/write_ex_daily.py.
pub mod Laws
pub mod Files
use eltdx.Base.{
  ℕ, ◌+◌, ◌*◌, ◌/◌, ◌%◌, Bool, List, [], ◌∷◌, Option, none, some, Result, ok, err, file_not_found,
  ltb,
}
use eltdx.Wire.{Bytes, slice, le_value, le_bytes, pack_uint}
use eltdx.Wire.Records.{pack_row}
use eltdx.Offline.Floats.{Floats}
use eltdx.Offline.Append.{File, fmt_size, whole_records, last_record, append}

module _ (floats : Floats) where
  open floats use {Float, unpack_f, pack_f}

  pub record ExDailyBar : Type 0 where
    pub year : ℕ
    pub month : ℕ
    pub day : ℕ
    pub open_price : Float
    pub high : Float
    pub low : Float
    pub close : Float
    pub amount : ℕ
    pub volume : ℕ
    pub settlement : Float
    pub hk_stock_amount : Float
    pub raw : Bytes

  abbrev pub date_int : ExDailyBar → ℕ
  date_int bar = bar.year * 10000 + bar.month * 100 + bar.day

  -- The body of the loop of `read_ex_daily_bar`; the amount is read a second time as a float.
  unfoldable pub decode_ex_daily_bar : Bytes → ExDailyBar
  decode_ex_daily_bar raw =
      let date = le_value (slice 0 4 raw) in
      let amount = le_value (slice 20 4 raw) in
      record {
        year = date / 10000;
        month = date % 10000 / 100;
        day = date % 100;
        open_price = unpack_f (slice 4 4 raw);
        high = unpack_f (slice 8 4 raw);
        low = unpack_f (slice 12 4 raw);
        close = unpack_f (slice 16 4 raw);
        amount = amount;
        volume = le_value (slice 24 4 raw);
        settlement = unpack_f (slice 28 4 raw);
        hk_stock_amount = unpack_f (le_bytes 4 amount);
        raw = raw;
      }

  abbrev pub ex_daily_bars : Bytes → List ExDailyBar
  ex_daily_bars = whole_records decode_ex_daily_bar

  pub read_ex_daily_bar : File → Result (List ExDailyBar)
  read_ex_daily_bar none = err file_not_found
  read_ex_daily_bar (some content) = ok (ex_daily_bars content)

  abbrev pub ex_daily_fields : ExDailyBar → List (Result Bytes)
  ex_daily_fields bar =
      pack_uint 4 (date_int bar)
      ∷ pack_f bar.open_price
      ∷ pack_f bar.high
      ∷ pack_f bar.low
      ∷ pack_f bar.close
      ∷ pack_uint 4 bar.amount
      ∷ pack_uint 4 bar.volume
      ∷ pack_f bar.settlement
      ∷ []

  unfoldable pub encode_ex_daily_bar : ExDailyBar → Result Bytes
  unfolding pack_row
  encode_ex_daily_bar bar = pack_row (ex_daily_fields bar)

  pub get_last_ex_bar_date : File → Option ℕ
  unfolding last_record
  get_last_ex_bar_date file = elim (last_record file fmt_size) [
    | none ↦ none
    | some last ↦ some (le_value (slice 0 4 last))
  ]

  abbrev pub later : ℕ → ExDailyBar → Bool
  later last bar = ltb last (date_int bar)

  unfoldable pub append_ex_daily_bar : File → List ExDailyBar → Result (ℕ × File)
  unfolding append get_last_ex_bar_date encode_ex_daily_bar
  append_ex_daily_bar = append encode_ex_daily_bar later get_last_ex_bar_date fmt_size

  abbrev pub write_ex_daily_bar : File → List ExDailyBar → Result (ℕ × File)
  unfolding append_ex_daily_bar
  write_ex_daily_bar file bars = append_ex_daily_bar file bars
