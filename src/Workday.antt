-- ===== src/Workday.antt =====
-- The trading days: src/eltdx/workday.py. A date is its proleptic ordinal (`date.toordinal`), and
-- `normalize`, which reads a date from what a caller gives, is left out.
pub mod Laws
use eltdx.Base.{
  ℕ, zero, suc, ◌+◌, ◌-◌, ◌*◌, ◌%◌, ◌≤◌, Bool, true, false, List, [], ◌∷◌, ◌++◌, length, get_elem?,
  take, drop, Option, none, some, ltb, leb, ◌==◌, if◌then◌else◌, ◌||◌,
}
use mathlib.Core.List.{reverse}

-- `date.weekday`
abbrev pub weekday : ℕ → ℕ
weekday day = (day + 6) % 7

abbrev pub is_weekday : ℕ → Bool
is_weekday day = ltb (weekday day) 5

-- `bisect_left` and `bisect_right` of a sorted list
abbrev pub bisect_left : List ℕ → ℕ → ℕ
bisect_left [] x = 0
bisect_left (day ∷ days) x = if ltb day x then suc (bisect_left days x) else 0

abbrev pub bisect_right : List ℕ → ℕ → ℕ
bisect_right [] x = 0
bisect_right (day ∷ days) x = if leb day x then suc (bisect_right days x) else 0

-- `sorted(set)`: a date is put in front of the later ones, once.
abbrev pub insert_day : ℕ → List ℕ → List ℕ
insert_day x [] = x ∷ []
insert_day x (day ∷ days) =
    if ltb x day then x ∷ day ∷ days else if x == day then day ∷ days else day ∷ insert_day x days

abbrev pub sorted_days : List ℕ → List ℕ
sorted_days [] = []
sorted_days (day ∷ days) = insert_day day (sorted_days days)

-- What the service keeps: whether it has a client, and the days of the last refresh.
pub record Workdays : Type 0 where
  pub has_client : Bool
  pub days : List ℕ
  pub loaded : Bool

-- `refresh`, by the dates of the benchmark's daily bars
unfoldable pub refresh : List ℕ → Workdays → ℕ × Workdays
refresh bars service =
    let days : List ℕ = if service.has_client then sorted_days bars else [] in
    (length days, record { has_client = service.has_client; days = days; loaded = true })

abbrev pub clear : Workdays → Workdays
clear service = record { has_client = service.has_client; days = []; loaded = false }

-- `_ensure_loaded`
abbrev pub ensure_loaded : List ℕ → Workdays → Workdays
unfolding refresh
ensure_loaded bars service = if service.loaded then service else (refresh bars service).1

abbrev pub has_day : List ℕ → ℕ → Bool
has_day [] x = false
has_day (day ∷ days) x = day == x || has_day days x

-- `_weekday_range`, of `n` days from one on
abbrev pub weekdays_from : ℕ → ℕ → List ℕ
weekdays_from zero day = []
weekdays_from (suc n) day =
    let later : List ℕ = weekdays_from n (suc day) in if is_weekday day then day ∷ later else later

abbrev pub weekday_range : ℕ → ℕ → List ℕ
weekday_range start_day end_day = weekdays_from (suc end_day - start_day) start_day

-- The first weekday from one on; seven steps are enough.
abbrev pub find_weekday : ℕ → ℕ → Option ℕ
find_weekday zero day = none
find_weekday (suc n) day =
    let later : Option ℕ = find_weekday n (suc day) in if is_weekday day then some day else later

abbrev pub find_weekday_before : ℕ → ℕ → Option ℕ
find_weekday_before zero day = none
find_weekday_before (suc n) day =
    let earlier : Option ℕ = find_weekday_before n (day - 1) in
    if is_weekday day then some day else earlier

-- The slice of the days that `range` takes.
unfoldable pub days_between : List ℕ → ℕ → ℕ → List ℕ
days_between days start_day end_day =
    let left = bisect_left days start_day in
    let right = bisect_right days end_day in drop left (take right days)

unfoldable pub days_next : List ℕ → ℕ → Bool → Option ℕ
days_next days day include_self =
    get_elem? days (if include_self then bisect_left days day else bisect_right days day)

-- An index below 0 gives `None`.
abbrev pub before_index : List ℕ → ℕ → Option ℕ
before_index days zero = none
before_index days (suc i) = get_elem? days i

unfoldable pub days_previous : List ℕ → ℕ → Bool → Option ℕ
days_previous days day include_self =
    before_index days (if include_self then bisect_right days day else bisect_left days day)

module _ (bars : List ℕ) (service : Workdays) where
  abbrev pub is_workday : ℕ → Bool
  is_workday day =
      if service.has_client then has_day (ensure_loaded bars service).days day else is_weekday day

  abbrev pub ordered_range : ℕ → ℕ → List ℕ
  unfolding days_between
  ordered_range start_day end_day =
      if service.has_client
      then days_between (ensure_loaded bars service).days start_day end_day
      else weekday_range start_day end_day

  -- `range`, which takes its two ends in either order
  abbrev pub range : ℕ → ℕ → Bool → List ℕ
  unfolding days_between
  range start_day end_day descending =
      let days : List ℕ =
        if ltb end_day start_day
        then ordered_range end_day start_day
        else ordered_range start_day end_day in
      if descending then reverse days else days

  abbrev pub next_workday : ℕ → Bool → Option ℕ
  unfolding days_next
  next_workday day include_self =
      if service.has_client
      then days_next (ensure_loaded bars service).days day include_self
      else find_weekday 7 (if include_self then day else suc day)

  abbrev pub previous_workday : ℕ → Bool → Option ℕ
  unfolding days_previous
  previous_workday day include_self =
      if service.has_client
      then days_previous (ensure_loaded bars service).days day include_self
      else find_weekday_before 7 (if include_self then day else day - 1)
