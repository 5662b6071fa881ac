-- ===== src/Mac/PriceRules/Laws.antt =====
-- Which shares have limits, by src/eltdx/mac/price_rules.py.
use eltdx.Base.{ℕ, ◌<◌, ◌≤◌, ◌≡◌, refl, Bool, true, false, some, if◌then◌else◌, arith}
use eltdx.Protocol.Text.{Text, codes}
use eltdx.Mac.PriceRules.{
  Floats, is_index_like, get_no_limit_window_days, in_window, limit_pct, limits,
  compute_price_limits,
}

if-≤ : (b : Bool) (m n bound : ℕ) → m ≤ bound → n ≤ bound → (if b then m else n) ≤ bound
if-≤ true m n bound left right = left
if-≤ false m n bound left right = right

window_bound : (market : ℕ) (code name : Text) → get_no_limit_window_days market code name ≤ 5
unfolding get_no_limit_window_days
window_bound market code name = if-≤ _ 0 _ 5 (omega arith) (
    if-≤ _ 1 _ 5 (omega arith)
      (if-≤ _ 5 _ 5 (omega arith) (if-≤ _ 5 0 5 (omega arith) (omega arith))))

in_window_after : (days window : ℕ) → window < days → in_window (some days) window ≡ false
unfolding in_window
in_window_after days window after = ground arith

module _ {Float : Type 0} (floats : Floats Float) (upper : Text → Text) where
  -- A share that is no index, with a price above 0, has both limits from its sixth day on, whatever
  -- its board.
  compute_price_limits_after :
      (market : ℕ) (code name : Text) (pre_close : Float) (days : ℕ)
      → floats.le pre_close (floats.literal (codes "0")) ≡ false
      → is_index_like market code name ≡ false
      → 5 < days
      → compute_price_limits floats upper market code name pre_close (some days)
        ≡ limits floats (limit_pct code (upper name)) pre_close
  unfolding compute_price_limits
  compute_price_limits_after market code name pre_close days positive share after =
      let window = get_no_limit_window_days market code name in
      let bound = window_bound market code name in
      let past = in_window_after days window (grind arith) in rw positive (rw share (rw past refl))
