-- ===== src/Mac/PriceRules.antt =====
-- The limits on the price of a share: src/eltdx/mac/price_rules.py. Floats, with the literals of the
-- source, and `str.upper` are arguments.
pub mod Laws
use eltdx.Base.{
  ℕ, ◌+◌, Bool, true, false, ◌&&◌, ◌||◌, not, List, [], ◌∷◌, take, Option, none, some, leb, ltb,
  ◌==◌, if◌then◌else◌,
}
use eltdx.Protocol.Text.{Text, codes, starts_with, starts_with_any, member, contains}

abbrev market_sz : ℕ
market_sz = 0

abbrev market_sh : ℕ
market_sh = 1

abbrev chinext_codes : List Text
chinext_codes = codes "300" ∷ codes "301" ∷ codes "302" ∷ []

abbrev bj_prefixes : List Text
bj_prefixes = codes "43" ∷ codes "83" ∷ codes "87" ∷ codes "92" ∷ []

abbrev sh_index_prefixes : List Text
sh_index_prefixes =
    codes "000"
    ∷ codes "880"
    ∷ codes "881"
    ∷ codes "882"
    ∷ codes "883"
    ∷ codes "884"
    ∷ codes "885"
    ∷ codes "999"
    ∷ []

abbrev sz_index_prefixes : List Text
sz_index_prefixes = codes "395" ∷ codes "399" ∷ []

-- `_is_index_like`
unfoldable pub is_index_like : ℕ → Text → Text → Bool
is_index_like market code name =
    (market == market_sh && starts_with_any sh_index_prefixes code)
    || ((market == market_sz && starts_with_any sz_index_prefixes code)
        || (contains (codes "指数") name || contains (codes "板块") name))

-- `get_no_limit_window_days`
unfoldable pub get_no_limit_window_days : ℕ → Text → Text → ℕ
get_no_limit_window_days market code name =
    if is_index_like market code name
    then 0
    else if starts_with_any bj_prefixes code
    then 1
    else if market == market_sh && starts_with_any (codes "60" ∷ codes "68" ∷ []) code
    then 5
    else if market == market_sz && starts_with_any (codes "00" ∷ codes "30" ∷ []) code
    then 5
    else 0

-- The arithmetic of floats that the rules use.
pub record Floats (Float : Type 0) : Type 0 where
  pub literal : Text → Float
  pub le : Float → Float → Bool
  pub plus : Float → Float → Float
  pub minus : Float → Float → Float
  pub times : Float → Float → Float
  pub round : Float → ℕ → Float

-- `listed_days is not None and 0 < listed_days <= no_limit_window_days`
unfoldable pub in_window : Option ℕ → ℕ → Bool
in_window none window = false
in_window (some days) window = ltb 0 days && leb days window

-- The text of the literal that `limit_pct` is given.
unfoldable pub limit_pct : Text → Text → Text
limit_pct code upper_name =
    if member (take 3 code) chinext_codes
    then codes "0.20"
    else if starts_with (codes "688") code
    then codes "0.20"
    else if starts_with_any bj_prefixes code
    then codes "0.30"
    else if contains (codes "ST") upper_name
    then codes "0.05"
    else codes "0.10"

module _ {Float : Type 0} (floats : Floats Float) where
  abbrev round_price : Float → Float
  round_price price = floats.round (floats.plus price (floats.literal (codes "0.00001"))) 2

  -- The two prices of a rule.
  abbrev pub limits : Text → Float → Option Float × Option Float
  limits pct pre_close =
      let one = floats.literal (codes "1") in
      let part = floats.literal pct in
      (
        some (round_price (floats.times pre_close (floats.plus one part))),
        some (round_price (floats.times pre_close (floats.minus one part))),
      )

module _ {Float : Type 0} (floats : Floats Float) (upper : Text → Text) where
  unfoldable pub compute_price_limits :
      ℕ → Text → Text → Float → Option ℕ → Option Float × Option Float
  compute_price_limits market code name pre_close listed_days =
      if floats.le pre_close (floats.literal (codes "0"))
      then (none, none)
      else if is_index_like market code name
      then (none, none)
      else if in_window listed_days (get_no_limit_window_days market code name)
      then (none, none)
      else limits floats (limit_pct code (upper name)) pre_close
