-- ===== src/Offline/Daily.antt =====
-- Daily bars: src/eltdx/offline/daily_bar.py and src/eltdx/offline/write_daily.py.
pub mod Laws
pub mod Again
use eltdx.Base.{
  ℕ, zero, suc, ◌+◌, ◌-◌, ◌*◌, ◌/◌, ◌%◌, ◌^◌, Bool, true, false, List, [], ◌∷◌, ◌++◌, length,
  Option, none, some, Result, ok, err, ◌>>=◌, struct_error, file_not_found, ltb, if◌then◌else◌, map,
}
use eltdx.Base.Int.{ℤ, pos, negsuc}
use eltdx.Wire.{Bytes, slice, le_value, pack_uint}
use eltdx.Wire.Records.{pack_row}
use eltdx.Offline.Floats.{Floats}
use eltdx.Offline.Append.{File, fmt_size, whole_records, last_record, append}

-- An integer as an unsigned field of four bytes.
abbrev pub pack_int : ℤ → Result Bytes
pack_int (pos n) = pack_uint 4 n
pack_int (negsuc n) = err struct_error

module _ (floats : Floats) where
  open floats use {Float, unpack_f, pack_f, of_nat, mul, div, round_int}

  pub record DailyBar : Type 0 where
    pub year : ℕ
    pub month : ℕ
    pub day : ℕ
    pub open_price : Float
    pub high : Float
    pub low : Float
    pub close : Float
    pub volume : Float
    pub amount : Float
    pub adjust_flag : ℕ
    pub raw : Bytes

  abbrev pub date_int : DailyBar → ℕ
  date_int bar = bar.year * 10000 + bar.month * 100 + bar.day

  -- The body of the loop of `read_daily_bar`.
  unfoldable pub decode_daily_bar : Float → Float → Bytes → DailyBar
  decode_daily_bar price_coeff vol_coeff raw =
      let date = le_value (slice 0 4 raw) in
      record {
        year = date / 10000;
        month = date % 10000 / 100;
        day = date % 100;
        open_price = mul (of_nat (le_value (slice 4 4 raw))) price_coeff;
        high = mul (of_nat (le_value (slice 8 4 raw))) price_coeff;
        low = mul (of_nat (le_value (slice 12 4 raw))) price_coeff;
        close = mul (of_nat (le_value (slice 16 4 raw))) price_coeff;
        volume = mul (of_nat (le_value (slice 24 4 raw))) vol_coeff;
        amount = unpack_f (slice 20 4 raw);
        adjust_flag = le_value (slice 28 4 raw);
        raw = raw;
      }

  abbrev pub daily_bars : Float → Float → Bytes → List DailyBar
  daily_bars price_coeff vol_coeff = whole_records (decode_daily_bar price_coeff vol_coeff)

  -- `read_daily_bar`, with the coefficients that the file's name decides.
  pub read_daily_bar : Float → Float → File → Result (List DailyBar)
  read_daily_bar price_coeff vol_coeff none = err file_not_found
  read_daily_bar price_coeff vol_coeff (some content) =
      ok (daily_bars price_coeff vol_coeff content)

  abbrev pub daily_fields : DailyBar → ℤ → ℤ → ℤ → ℤ → ℤ → List (Result Bytes)
  daily_fields bar open_int high_int low_int close_int volume_int =
      pack_uint 4 (date_int bar)
      ∷ pack_int open_int
      ∷ pack_int high_int
      ∷ pack_int low_int
      ∷ pack_int close_int
      ∷ pack_f bar.amount
      ∷ pack_int volume_int
      ∷ pack_uint 4 bar.adjust_flag
      ∷ []

  unfoldable pub encode_daily_bar : Float → Float → DailyBar → Result Bytes
  unfolding pack_row
  encode_daily_bar price_coeff vol_coeff bar = do
    open_int ← round_int (div bar.open_price price_coeff)
    high_int ← round_int (div bar.high price_coeff)
    low_int ← round_int (div bar.low price_coeff)
    close_int ← round_int (div bar.close price_coeff)
    volume_int ← round_int (div bar.volume vol_coeff)
    pack_row (daily_fields bar open_int high_int low_int close_int volume_int)

  pub get_last_bar_date : File → Option ℕ
  unfolding last_record
  get_last_bar_date file = elim (last_record file fmt_size) [
    | none ↦ none
    | some last ↦ some (le_value (slice 0 4 last))
  ]

  abbrev pub later : ℕ → DailyBar → Bool
  later last bar = ltb last (date_int bar)

  unfoldable pub append_daily_bar : Float → Float → File → List DailyBar → Result (ℕ × File)
  unfolding append get_last_bar_date encode_daily_bar
  append_daily_bar price_coeff vol_coeff =
      append (encode_daily_bar price_coeff vol_coeff) later get_last_bar_date fmt_size

  abbrev pub write_daily_bar : Float → Float → File → List DailyBar → Result (ℕ × File)
  unfolding append_daily_bar
  write_daily_bar price_coeff vol_coeff file bars = append_daily_bar price_coeff vol_coeff file bars
