-- ===== src/Ex/HkTransaction.antt =====
-- The pages of Hong Kong transactions: src/eltdx/ex/_hk_transaction.py. `execute` stands for the
-- client's `execute_fn` on the command that the date, the offset and the page size decide.
pub mod Laws
use eltdx.Base.{
  ℕ, zero, suc, ◌+◌, ◌-◌, ◌*◌, min, Bool, true, false, List, [], ◌∷◌, ◌++◌, length, Option, none,
  some, Result, ok, err, ◌>>=◌, ◌||◌, out_of_fuel, value_error, ltb, ◌==◌, if◌then◌else◌,
}
use eltdx.Wire.{Bytes}
use eltdx.Ex.Transaction.{ExTransactionRecord}
use eltdx.Offline.Floats.{Floats}

-- `market in HK_STOCK_MARKETS`
abbrev pub is_hk_stock_market : ℕ → Bool
is_hk_stock_market market =
    market == 27
    || (market == 31 || (market == 48 || (market == 49 || (market == 71 || market == 98))))

abbrev pub page_size : ℕ
page_size = 1800

abbrev pub max_pages : ℕ
max_pages = 50

abbrev pub to_ymd : ℕ × ℕ × ℕ → ℕ
to_ymd (year, month, day) = year * 10000 + month * 100 + day

-- The commands that `_build_cmd` chooses from, with an offset and a page size.
pub data Command : Type 0 where
  today : ℕ → ℕ → Command
  history : ℕ → ℕ → ℕ → Command

abbrev pub build_cmd : Option ℕ → ℕ → ℕ → Command
build_cmd none offset size = today offset size
build_cmd (some ymd) offset size = history ymd offset size

module _ (floats : Floats) where
  open floats use {Float, of_nat, div}

  pub record MacTransaction : Type 0 where
    pub hour : ℕ
    pub minute : ℕ
    pub second : ℕ
    pub price : Float
    pub vol : ℕ
    pub trade_count : ℕ
    pub bs_flag : ℕ

  -- `datetime.time` refuses an hour that is none.
  unfoldable pub map_record : ExTransactionRecord → Result MacTransaction
  map_record rec =
      if ltb rec.hour 24
      then ok (record {
        hour = rec.hour;
        minute = rec.minute;
        second = rec.second;
        price = div (of_nat rec.price) (of_nat 1000);
        vol = rec.volume;
        trade_count = 0;
        bs_flag = rec.nature;
      })
      else err value_error

module _ {Rec Row : Type 0} (map_record : Rec → Result Row) where
  -- `[_map_record(r) for r in batch]`
  abbrev pub map_records : List Rec → Result (List Row)
  map_records [] = ok []
  map_records (r ∷ rs) = do row ← map_record r; rows ← map_records rs; ok (row ∷ rows)

  -- What follows a batch: nothing, its rows, or its rows and those of the next pages.
  abbrev pub extend : List Rec → ℕ → Result (List Row) → Result (List Row)
  extend batch size rest = if length batch == 0 then ok [] else do
    rows ← map_records batch
    more ← if ltb (length batch) size then ok [] else rest
    ok (rows ++ more)

  module _ (execute : Command → Result (List Rec)) (ymd : Option ℕ) where
    -- The loop of `_fetch_hk_transactions_sync`
    fetch_loop : ℕ → ℕ → ℕ → ℕ → Result (List Row)
    fetch_loop zero count fetched offset = err out_of_fuel
    fetch_loop (suc fuel) count fetched offset =
        let size = min (count - fetched) page_size in
        let page : Result (List Row) = do
          batch ← execute (build_cmd ymd offset size)
          extend batch size (fetch_loop fuel count (fetched + length batch) (offset + length batch))
        in if ltb fetched count then page else ok []

    -- Each page that is not the last has a record, so that `count` rounds and one are enough.
    unfoldable pub fetch_hk_transactions : ℕ → ℕ → Result (List Row)
    unfolding fetch_loop
    fetch_hk_transactions start count = fetch_loop (suc count) count 0 start

    -- The loop of `_fetch_all_hk_transactions_sync`
    fetch_all_loop : ℕ → ℕ → Result (List Row)
    fetch_all_loop zero offset = ok []
    fetch_all_loop (suc pages) offset = do
      batch ← execute (build_cmd ymd offset page_size)
      extend batch page_size (fetch_all_loop pages (offset + length batch))

    unfoldable pub fetch_all_hk_transactions : ℕ → Result (List Row)
    unfolding fetch_all_loop
    fetch_all_hk_transactions start = fetch_all_loop max_pages start
