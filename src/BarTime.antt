-- ===== src/BarTime.antt =====
-- src/eltdx/_bar_time.py: the minutes of a K-line period, and the shift of bars from the time at
-- which they begin to the time at which they end.
pub mod Laws
use eltdx.Base.{
  ℕ, zero, suc, ◌+◌, ◌*◌, ◌/◌, ◌%◌, max, Bool, true, false, not, ◌||◌, List, [], ◌∷◌, map, Option,
  none, some, Result, ok, err, ◌>>=◌, ◌>>◌, raise_if, value_error, ltb, ◌==◌, if◌then◌else◌,
}
use eltdx.Base.Int.{ℤ, pos, negsuc}
use eltdx.Protocol.Text.{Text, codes, text_eq, member}

abbrev pub bar_time_start : Text
bar_time_start = codes "start"

abbrev pub bar_time_end : Text
bar_time_end = codes "end"

abbrev pub valid_bar_times : List Text
valid_bar_times = bar_time_start ∷ bar_time_end ∷ []

-- `check_bar_time`
unfoldable pub check_bar_time : Text → Result (Unit {0})
check_bar_time bar_time = raise_if (not (member bar_time valid_bar_times)) value_error

-- A table of minutes, by the number of the period.
abbrev pub Table : Type 0
Table = List (ℕ × ℕ)

-- `table.get(key)`
abbrev pub get : Table → ℕ → Option ℕ
get [] key = none
get ((k, minutes) ∷ table) key =
    let others = get table key in if k == key then some minutes else others

abbrev pub ex_category_minutes : Table
ex_category_minutes = (0, 5) ∷ (1, 15) ∷ (2, 30) ∷ (3, 60) ∷ (7, 1) ∷ (8, 3) ∷ []

abbrev pub mac_period_minutes : Table
mac_period_minutes = (0, 5) ∷ (1, 15) ∷ (2, 30) ∷ (3, 60) ∷ (7, 1) ∷ (8, 5) ∷ []

abbrev pub klines_raw_minutes : Table
klines_raw_minutes = (0, 5) ∷ (1, 15) ∷ (2, 30) ∷ (3, 60) ∷ (7, 1) ∷ []

-- `max(n, 1)`
abbrev pub at_least_one : ℤ → ℕ
at_least_one (pos n) = max n 1
at_least_one (negsuc n) = 1

unfoldable pub category_to_minutes : ℕ → Option ℕ
category_to_minutes category = get ex_category_minutes category

unfoldable pub period_to_minutes : ℕ → ℤ → Option ℕ
period_to_minutes period times = elim (get mac_period_minutes period) [
  | none ↦ none
  | some base ↦ if period == 8 then some (base * at_least_one times) else some base
]

unfoldable pub kline_period_minutes : ℕ → ℤ → Option ℕ
kline_period_minutes raw parameter =
    if raw == 8 then some (at_least_one parameter) else get klines_raw_minutes raw

abbrev pub is_positive : Option ℕ → Bool
is_positive none = false
is_positive (some delta_minutes) = ltb 0 delta_minutes

-- `_needs_align`
unfoldable pub needs_align : Text → Option ℕ → Result Bool
unfolding check_bar_time
needs_align bar_time delta_minutes =
    if text_eq bar_time bar_time_start
    then ok false
    else (do check_bar_time bar_time; ok (is_positive delta_minutes))

pub record TimeOfDay : Type 0 where
  pub hour : ℕ
  pub minute : ℕ

-- A `datetime`, by the ordinal of its day; seconds are not touched.
pub record DateTime : Type 0 where
  pub day : ℕ
  pub time : TimeOfDay

abbrev pub minutes_of : TimeOfDay → ℕ
minutes_of t = t.hour * 60 + t.minute

-- `hour=(total // 60) % 24, minute=total % 60`
abbrev pub time_after : ℕ → TimeOfDay → TimeOfDay
time_after delta t =
    let total = minutes_of t + delta in record { hour = total / 60 % 24; minute = total % 60 }

-- `when + timedelta(minutes=delta)`, before the last year of `datetime`
abbrev pub datetime_after : ℕ → DateTime → DateTime
datetime_after delta d =
    let total = d.day * 1440 + minutes_of d.time + delta in
    record {
      day = total / 1440;
      time = record { hour = total % 1440 / 60; minute = total % 1440 % 60 };
    }

abbrev align : {Bar : Type 0} → (ℕ → Bar → Bar) → List Bar → Option ℕ → Bool → List Bar
align shift bars (some delta) true = map (shift delta) bars
align shift bars _ _ = bars

abbrev align_bars :
    {Bar : Type 0} → (ℕ → Bar → Bar) → List Bar → Option ℕ → Text → Result (List Bar)
align_bars shift bars delta_minutes bar_time = do
  needed ← needs_align bar_time delta_minutes
  ok (align shift bars delta_minutes needed)

-- `align_hour_minute_bars`, by the reading of `hour` and `minute` and their `replace`
unfoldable pub align_hour_minute_bars :
    {Bar : Type 0}
    → (Bar → TimeOfDay)
    → (TimeOfDay → Bar → Bar)
    → List Bar
    → Option ℕ
    → Text
    → Result (List Bar)
unfolding needs_align
align_hour_minute_bars time_of replace =
    align_bars (λ delta bar. replace (time_after delta (time_of bar)) bar)

-- `align_time_bars`, by the reading of the field and its `replace`: the day stays.
unfoldable pub align_time_bars :
    {Bar : Type 0}
    → (Bar → DateTime)
    → (DateTime → Bar → Bar)
    → List Bar
    → Option ℕ
    → Text
    → Result (List Bar)
unfolding needs_align
align_time_bars field replace = align_bars (λ delta bar.
    replace (record { day = (field bar).day; time = time_after delta ((field bar).time) }) bar)

-- `align_datetime_bars`
unfoldable pub align_datetime_bars :
    {Bar : Type 0}
    → (Bar → DateTime)
    → (DateTime → Bar → Bar)
    → List Bar
    → Option ℕ
    → Text
    → Result (List Bar)
unfolding needs_align
align_datetime_bars field replace =
    align_bars (λ delta bar. replace (datetime_after delta (field bar)) bar)
