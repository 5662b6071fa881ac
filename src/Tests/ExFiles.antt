-- ===== src/Tests/ExFiles.antt =====
-- Runs of the theorems on files of the extended markets.
use eltdx.Base.{ℕ, ◌≡◌, refl, [], ◌∷◌, ◌++◌, some, ok}
use eltdx.Wire.{Bytes, le_bytes, u32_round}
use eltdx.Wire.Records.{concat}
use eltdx.Offline.Daily.Laws.{pack_uint-ok}
use eltdx.Offline.ExDaily
use eltdx.Offline.ExDaily.{ExDailyBar}
use eltdx.Offline.ExDaily.Laws.{IsExact}
use eltdx.Tests.Samples.{whole_floats}

whole-IsExact : (x : ℕ) → IsExact whole_floats x
whole-IsExact x bs h = let (same, range) = pack_uint-ok x bs h in rw same (u32_round x range)

abbrev ex_bar : ExDailyBar whole_floats
ex_bar = record {
  year = 2024;
  month = 5;
  day = 6;
  open_price = 10;
  high = 12;
  low = 9;
  close = 11;
  amount = 4000;
  volume = 300;
  settlement = 13;
  hk_stock_amount = 0;
  raw = [];
}

abbrev ex_row : Bytes
ex_row = concat (
    le_bytes 4 20240506
    ∷ le_bytes 4 10
    ∷ le_bytes 4 12
    ∷ le_bytes 4 9
    ∷ le_bytes 4 11
    ∷ le_bytes 4 4000
    ∷ le_bytes 4 300
    ∷ le_bytes 4 13
    ∷ [])

ex_encoded : ExDaily.encode_ex_daily_bar whole_floats ex_bar ≡ ok ex_row
unfolding ExDaily.encode_ex_daily_bar
ex_encoded = refl

abbrev ex_bar_after : ExDailyBar whole_floats
ex_bar_after = record ex_bar { day = 7 }

abbrev ex_row_after : Bytes
ex_row_after = concat (
    le_bytes 4 20240507
    ∷ le_bytes 4 10
    ∷ le_bytes 4 12
    ∷ le_bytes 4 9
    ∷ le_bytes 4 11
    ∷ le_bytes 4 4000
    ∷ le_bytes 4 300
    ∷ le_bytes 4 13
    ∷ [])

ex_appended :
    ExDaily.append_ex_daily_bar whole_floats (some ex_row) (ex_bar ∷ ex_bar_after ∷ [])
    ≡ ok (1, some (ex_row ++ ex_row_after))
unfolding ExDaily.append_ex_daily_bar
ex_appended = refl
