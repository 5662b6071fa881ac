-- ===== src/Tests/Markets.antt =====
-- Runs of the theorems on the extended-market commands, on K-line times and on batches.
use eltdx.Base.{
  ℕ, suc, not, leb, ◌==◌, take, drop, ◌/◌, ◌*◌, ◌-◌, ◌+◌, ◌%◌, ◌≤◌, ◌≡◌, refl, List, [], ◌∷◌, ◌++◌,
  get_elem?, some, ok, err, value_error, arith, replicate,
}
use eltdx.Wire.{Bytes, le_value}
use eltdx.Protocol.Text.{Text, codes, in_ranges}
use eltdx.Protocol.Code.{normalize_code, normalize_text}
use eltdx.Ex.Range.{build_range}
use eltdx.Ex.Range.Sequence.{seqid_after, build_range_cycle}
use eltdx.Ex.Bars.{parse_bars}
use eltdx.Ex.Bars.Laws.{announced, after_bars, cut_off, parse_bars_cut}
use eltdx.Ex.QuoteList.{parse_quotes}
use eltdx.Ex.QuoteList.Laws.{Reads, parse_quotes_futures, parse_quotes_hk}
use eltdx.BarTime.{TimeOfDay, DateTime, bar_time_end, align_datetime_bars, align_time_bars}
use eltdx.BarTime.Laws.{Agrees, align_datetime_bars-Agrees}
use eltdx.Api.Batch.{Answer, rows, failed, protocol, snapshot, skip_missing, recover_batch, reorder}
use eltdx.Api.Batch.Budget.{HasResult, recover_batch_budget}
use eltdx.Mac.Adjust.{
  FloatMath, MacBar, XdxrEvent, compute_forward_factor, scale_by, scale_from, scale_event,
  scale_events, apply_forward_adjust,
}
use eltdx.Mac.Adjust.Laws.{apply_forward_adjust_anchor}
use eltdx.Api.Batch.Order.{InOrder, rows_of, times, reorder-InOrder}

build_range_cycle_example :
    (request : Bytes) × ((build_range 47 (0x49 ∷ 0x46 ∷ []) 20240102 20240105 (seqid_after 300)).0
      ≡ ok request)
    × (get_elem? request 1 ≡ some (300 % 255 + 1))
build_range_cycle_example =
    build_range_cycle 300 47 (0x49 ∷ 0x46 ∷ []) 20240102 20240105 (omega arith) (omega arith)
      (omega arith)

abbrev bar_bytes : Bytes
bar_bytes = 1 ∷ 2 ∷ 58 ∷ 2 ∷ replicate 28 7

parse_bars_cut_example :
    parse_bars le_value 0 (announced (replicate 18 0) 3 (bar_bytes ∷ []) (1 ∷ 2 ∷ 3 ∷ []))
    ≡ after_bars le_value 0 (bar_bytes ∷ []) (cut_off le_value 0 (1 ∷ 2 ∷ 3 ∷ []))
parse_bars_cut_example =
    parse_bars_cut le_value 0 (replicate 18 0) (bar_bytes ∷ []) (1 ∷ 2 ∷ 3 ∷ []) 1 refl
      (omega arith) (refl, tt) (omega arith)

abbrev market_bytes : ℕ → Bytes
market_bytes n = n ∷ replicate 32 65 ++ n ∷ replicate 30 66

abbrev quotes_body : Bytes
quotes_body = 1 ∷ 0 ∷ replicate 150 9

parse_quotes_futures_example : parse_quotes le_value (λ bs. bs) 3 quotes_body ≡ err value_error
parse_quotes_futures_example =
    parse_quotes_futures le_value (λ bs. bs) quotes_body 0 refl (omega arith)

parse_quotes_hk_example :
    Reads le_value (λ bs. bs) 1 (parse_quotes le_value (λ bs. bs) 2 quotes_body)
parse_quotes_hk_example = parse_quotes_hk le_value (λ bs. bs) 2 quotes_body refl

abbrev evening : DateTime
evening = record { day = 738886; time = record { hour = 23; minute = 55 } }

align_datetime_bars-Agrees_example :
    Agrees
      (λ d. d)
      (λ d bar. d)
      (λ d bar. refl)
      bar_time_end
      (some 15)
      (evening ∷ [])
      (align_datetime_bars (λ d. d) (λ d bar. d) (evening ∷ []) (some 15) bar_time_end)
      (align_time_bars (λ d. d) (λ d bar. d) (evening ∷ []) (some 15) bar_time_end)
align_datetime_bars-Agrees_example =
    align_datetime_bars-Agrees (λ d. d) (λ d bar. d) (λ d bar. refl) (evening ∷ []) (some 15)
      bar_time_end

abbrev half_past : TimeOfDay
half_past = record { hour = 23; minute = 30 }

-- A server that has all codes but the second, and counts its requests.
abbrev serve : List Text → ℕ → Answer Text × ℕ
serve (a ∷ []) n = (rows (a ∷ []), suc n)
serve part n = (failed (protocol (codes "snapshot missing requested record: 000002")), suc n)

serve_counts : (part : List Text) (n : ℕ) → (serve part n).1 ≡ suc n
serve_counts [] n = refl
serve_counts (a ∷ []) n = refl
serve_counts (a ∷ b ∷ part) n = refl

abbrev wanted : List Text
wanted = codes "sz000001" ∷ codes "sz000003" ∷ codes "sz000001" ∷ []

recover_batch_budget_example :
    HasResult ((recover_batch (λ r. r) snapshot serve skip_missing wanted 0).0)
    × ((recover_batch (λ r. r) snapshot serve skip_missing wanted 0).1 ≤ 33)
recover_batch_budget_example =
    recover_batch_budget (λ r. r) (λ n. n) snapshot serve skip_missing wanted 0 serve_counts

abbrev ordered : List Text
ordered = codes "sz000001" ∷ codes "sz000001" ∷ []

put_together : reorder (λ r. r) wanted (codes "sz000001" ∷ codes "sz000001" ∷ []) ≡ ok ordered
unfolding reorder normalize_code normalize_text in_ranges
put_together = refl

reorder-InOrder_example :
    InOrder (λ r. r) wanted ordered
    × ((full : Text)
        → rows_of (λ r. r) full ordered
          ≡ take
              (times full wanted)
              (rows_of (λ r. r) full (codes "sz000001" ∷ codes "sz000001" ∷ [])))
reorder-InOrder_example =
    reorder-InOrder (λ r. r) wanted (codes "sz000001" ∷ codes "sz000001" ∷ []) ordered put_together

-- Whole prices, of which 999 is no number.
abbrev whole_prices : FloatMath ℕ
whole_prices = record {
  zero_float = 0;
  one_float = 1;
  nan = 999;
  is_finite = λ x. not (x == 999);
  le = leb;
  equal = ◌==◌;
  plus = ◌+◌;
  minus = ◌-◌;
  times = ◌*◌;
  divide = ◌/◌;
}

abbrev bar_at : ℕ → ℕ → MacBar ℕ
bar_at time price = record {
  datetime = time;
  open_price = price;
  high = price;
  low = price;
  close = price;
  vol = 5;
  amount = 6;
  float_shares = 7;
}

abbrev rights_issue : XdxrEvent ℕ
rights_issue = record {
  date = 2;
  category = 1;
  fenhong = 0;
  peigujia = 24;
  songzhuangu = 0;
  peigu = 1;
}

abbrev adjusted : List (MacBar ℕ)
adjusted =
    apply_forward_adjust whole_prices (λ time. time / 10) (bar_at 20 9 ∷ bar_at 10 8 ∷ [])
      (rights_issue ∷ [])

adjusted_test : adjusted ≡ bar_at 10 16 ∷ bar_at 20 9 ∷ []
unfolding apply_forward_adjust scale_events scale_event scale_from scale_by compute_forward_factor
adjusted_test = refl

apply_forward_adjust_anchor_example : drop 1 adjusted ≡ bar_at 20 9 ∷ []
apply_forward_adjust_anchor_example =
    apply_forward_adjust_anchor whole_prices (λ time. time / 10) (bar_at 20 9 ∷ bar_at 10 8 ∷ [])
      (rights_issue ∷ []) 2 (omega arith, tt)
