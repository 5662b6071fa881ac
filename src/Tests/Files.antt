-- ===== src/Tests/Files.antt =====
-- Runs of the theorems on local data files.
use eltdx.Base.{ℕ, ◌+◌, ◌≡◌, refl, List, [], ◌∷◌, ◌++◌, length, map, some, ok, false, inl, arith}
use eltdx.Base.Int.{◌+ℤ◌, scale}
use eltdx.Wire.{Bytes, le_bytes}
use eltdx.Wire.Records.{concat}
use eltdx.Offline.Append.{new_bars}
use eltdx.Offline.Append.Laws.{Encoded}
use eltdx.Offline.Daily
use eltdx.Offline.Daily.{DailyBar}
use eltdx.Offline.Daily.Laws.{length-encode_daily_bar, daily_bars-append}
use eltdx.Offline.Daily.Again.{append_daily_bar_again}
use eltdx.Offline.MinBar
use eltdx.Offline.MinBar.{MinBar, decode_tdx_date, encode_tdx_date}
use eltdx.Offline.MinBar.Rows.{min_bar-round_trip}
use eltdx.Tests.Samples.{whole_floats}

abbrev day_bar : ℕ → DailyBar whole_floats
day_bar day = record {
  year = 2024;
  month = 5;
  day = day;
  open_price = 10;
  high = 12;
  low = 9;
  close = 11;
  volume = 300;
  amount = 4000;
  adjust_flag = 1;
  raw = [];
}

abbrev day_row : ℕ → Bytes
day_row day = concat (
    le_bytes 4 (20240500 + day)
    ∷ le_bytes 4 10
    ∷ le_bytes 4 12
    ∷ le_bytes 4 9
    ∷ le_bytes 4 11
    ∷ le_bytes 4 4000
    ∷ le_bytes 4 300
    ∷ le_bytes 4 1
    ∷ [])

day_encoded : Daily.encode_daily_bar whole_floats 1 1 (day_bar 6) ≡ ok (day_row 6)
unfolding Daily.encode_daily_bar
day_encoded = refl

abbrev two_days : List (DailyBar whole_floats)
two_days = day_bar 6 ∷ day_bar 7 ∷ []

abbrev before : Bytes
before = day_row 6

abbrev after : Bytes
after = day_row 6 ++ day_row 7

day_appended : Daily.append_daily_bar whole_floats 1 1 (some before) two_days ≡ ok (1, some after)
unfolding Daily.append_daily_bar
day_appended = refl

daily_bars-append_example :
    let fresh =
      new_bars
        (Daily.encode_daily_bar whole_floats 1 1)
        (Daily.later whole_floats)
        (Daily.get_last_bar_date whole_floats (some before))
        two_days in
    (ss : List Bytes) × Encoded
      (Daily.encode_daily_bar whole_floats 1 1)
      (Daily.later whole_floats)
      32
      (length-encode_daily_bar whole_floats 1 1)
      fresh
      ss
    × (1 ≡ length fresh)
    × (Daily.daily_bars whole_floats 1 1 after
        ≡ Daily.daily_bars whole_floats 1 1 before
          ++ map (Daily.decode_daily_bar whole_floats 1 1) ss)
daily_bars-append_example = daily_bars-append whole_floats 1 1 before after two_days 1 day_appended

append_daily_bar_again_example :
    Daily.append_daily_bar whole_floats 1 1 (some after) two_days ≡ ok (0, some after)
append_daily_bar_again_example =
    append_daily_bar_again whole_floats 1 1 before after (day_bar 6 ∷ []) (day_bar 7) 1
      (omega arith, (omega arith, tt)) day_appended

abbrev minute_bar : ℕ → MinBar whole_floats
minute_bar minute = record {
  year = 2024;
  month = 5;
  day = 6;
  hour = 9;
  minute = minute;
  open_price = 10;
  high = 12;
  low = 9;
  close = 11;
  volume = 300;
  amount = 4000;
  reserved = 0;
  raw = [];
}

abbrev minute_row : ℕ → Bytes
minute_row minute = concat (
    le_bytes 2 41466
    ∷ le_bytes 2 (540 + minute)
    ∷ le_bytes 4 10
    ∷ le_bytes 4 12
    ∷ le_bytes 4 9
    ∷ le_bytes 4 11
    ∷ le_bytes 4 4000
    ∷ le_bytes 4 300
    ∷ le_bytes 4 0
    ∷ [])

minute_encoded : MinBar.encode_min_bar whole_floats (minute_bar 31) ≡ ok (minute_row 31)
unfolding MinBar.encode_min_bar ◌+ℤ◌ scale
minute_encoded = refl

min_bar-round_trip_example :
    (length (minute_row 31) ≡ 32)
    × (MinBar.datetime_key whole_floats (MinBar.decode_bar whole_floats false (minute_row 31))
        ≡ (2024, 5, 6, 9, 31))
min_bar-round_trip_example =
    min_bar-round_trip whole_floats (minute_bar 31) (minute_row 31)
      (omega arith, omega arith, omega arith, omega arith) (inl minute_encoded) false

minute_appended :
    MinBar.append_min_bar whole_floats (some (minute_row 31)) (minute_bar 31 ∷ minute_bar 32 ∷ [])
    ≡ ok (1, some (minute_row 31 ++ minute_row 32))
unfolding MinBar.append_min_bar ◌+ℤ◌ scale
minute_appended = refl
