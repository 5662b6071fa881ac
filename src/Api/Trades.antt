-- ===== src/Api/Trades.antt =====
-- The pages of trade ticks: src/eltdx/api/trades.py. `query` stands for `today` or `history` of one
-- code, by the offset and the page size.
pub mod Laws
pub mod Bulk
use eltdx.Base.{
  ℕ, zero, suc, ◌+◌, Bool, true, false, List, [], ◌∷◌, ◌++◌, length, Option, none, some, Result, ok,
  err, ◌>>=◌, ◌>>◌, ◌||◌, raise_if, out_of_fuel, value_error, runtime_error, ltb, leb, ◌==◌,
  if◌then◌else◌, min,
}

-- `MAX_TRADE_PAGE_SIZE`
abbrev pub max_trade_page_size : ℕ
max_trade_page_size = 1800

unfoldable pub validate_page_size : ℕ → Result (Unit {0})
validate_page_size value = raise_if (value == 0 || ltb max_trade_page_size value) value_error

abbrev pub is_zero : Option ℕ → Bool
is_zero none = false
is_zero (some n) = n == 0

unfoldable pub validate_batch_size : Option ℕ → Result (Unit {0})
validate_batch_size value = raise_if (is_zero value) value_error

-- `max_pages is not None and max_pages <= 0`
abbrev pub validate_max_pages : Option ℕ → Result (Unit {0})
validate_max_pages max_pages = raise_if (is_zero max_pages) value_error

-- `max_pages is not None and pages >= max_pages`
abbrev pub is_reached : Option ℕ → ℕ → Bool
is_reached none pages = false
is_reached (some max_pages) pages = leb max_pages pages

-- `_batch_workers`, where the transport has a capacity
abbrev pub batch_workers : ℕ → ℕ → Option ℕ → ℕ
batch_workers capacity code_count batch_size =
    let capacity' : ℕ = if capacity == 0 then 1 else capacity in
    let requested : ℕ = elim batch_size [ none ↦ capacity' | some n ↦ n ] in
    min (min code_count requested) capacity'

-- A `TradePage` or, with the ticks as blocks, a `TradeBatch`; `info` is what pages of one request
-- have in common (exchange, code, date).
pub record Page (Info Tick : Type 0) : Type 0 where
  pub info : Info
  pub start : ℕ
  pub request_count : ℕ
  pub ticks : List Tick

module _ {Tick : Type 0} where
  -- `tuple(tick for page_ticks in reversed(pages_ticks) for tick in page_ticks)`, of the pages with
  -- the last one first
  abbrev pub join_pages : List (List Tick) → List Tick
  join_pages [] = []
  join_pages (ticks ∷ pages_ticks) = ticks ++ join_pages pages_ticks

  -- `opening_matches`
  abbrev pub opening_matches : (Tick → Bool) → List Tick → List Tick
  opening_matches is_opening_match [] = []
  opening_matches is_opening_match (tick ∷ ticks) =
      let rest : List Tick = opening_matches is_opening_match ticks in
      if is_opening_match tick then tick ∷ rest else rest

module _ {Info Tick : Type 0} where
  -- `count`
  abbrev pub count : Page Info Tick → ℕ
  count page = length page.ticks

  abbrev pub first_page : Option (Page Info Tick) → Page Info Tick → Page Info Tick
  first_page none page = page
  first_page (some first) page = first

  -- `replace(first_page, start=0, request_count=..., ticks=ticks)`
  abbrev pub merged : Page Info Tick → ℕ → List Tick → Page Info Tick
  merged first n ticks = record { info = first.info; start = 0; request_count = n; ticks = ticks }

  module _ (query : ℕ → ℕ → Result (Page Info Tick)) (page_size : ℕ) (max_pages : Option ℕ) where
    -- The loop of `_all`; the pages are kept with the last one first.
    all_loop : ℕ → ℕ → ℕ → Option (Page Info Tick) → List (List Tick) → Result (Page Info Tick)
    all_loop zero start pages first pages_ticks = err out_of_fuel
    all_loop (suc fuel) start pages first pages_ticks = do
      page ← query start page_size
      let ticks : List Tick = join_pages (page.ticks ∷ pages_ticks)
      let next : Result (Page Info Tick) =
          all_loop fuel (start + count page) (suc pages) (some (first_page first page))
            (page.ticks ∷ pages_ticks)
      if count page == 0
          then ok (merged (first_page first page) (length ticks) ticks)
          else if is_reached max_pages (suc pages)
          then err runtime_error
          else next

    -- `_all`, in at most `fuel` requests
    unfoldable pub all_ticks : ℕ → Result (Page Info Tick)
    unfolding all_loop validate_page_size
    all_ticks fuel = do
      validate_page_size page_size
      validate_max_pages max_pages
      all_loop fuel 0 0 none []

    -- The loop of `all_today_batch` and `all_history_batch`, which counts the ticks by the offset.
    batch_loop : ℕ → ℕ → ℕ → Option (Page Info Tick) → List (List Tick) → Result (Page Info Tick)
    batch_loop zero start pages first pages_ticks = err out_of_fuel
    batch_loop (suc fuel) start pages first pages_ticks = do
      page ← query start page_size
      let next : Result (Page Info Tick) =
          batch_loop fuel (start + count page) (suc pages) (some (first_page first page))
            (page.ticks ∷ pages_ticks)
      if count page == 0
          then ok (merged (first_page first page) start (join_pages (page.ticks ∷ pages_ticks)))
          else if is_reached max_pages (suc pages)
          then err runtime_error
          else next

    unfoldable pub all_batch : ℕ → Result (Page Info Tick)
    unfolding batch_loop validate_page_size
    all_batch fuel = do
      validate_page_size page_size
      validate_max_pages max_pages
      batch_loop fuel 0 0 none []

    -- The loop of `_find_opening_match`
    match_loop : (Tick → Bool) → ℕ → ℕ → ℕ → Result (Option Tick)
    match_loop is_opening_match zero start pages = err out_of_fuel
    match_loop is_opening_match (suc fuel) start pages = do
      page ← query start page_size
      let next : Result (Option Tick) =
          match_loop is_opening_match fuel (start + count page) (suc pages)
      elim (opening_matches is_opening_match page.ticks) [
        | found ∷ _ ↦ ok (some found)
        | [] ↦
            if count page == 0
            then ok none
            else if is_reached max_pages (suc pages)
            then err runtime_error
            else next
      ]

    unfoldable pub find_opening_match : (Tick → Bool) → ℕ → Result (Option Tick)
    unfolding match_loop validate_page_size
    find_opening_match is_opening_match fuel = do
      validate_page_size page_size
      validate_max_pages max_pages
      match_loop is_opening_match fuel 0 0
