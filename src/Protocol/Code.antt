-- ===== src/Protocol/Code.antt =====
-- `normalize_market`, `market_to_id`, `normalize_code`, `split_code` and `price_divisor` of
-- src/eltdx/protocol/unit.py.
pub mod Shape
pub mod Laws
pub mod Split
use eltdx.Base.{
  ℕ, zero, suc, Bool, true, false, not, ◌&&◌, ◌||◌, List, [], ◌∷◌, ◌++◌, take, drop, length, ◌==◌,
  if◌then◌else◌, Result, ok, err, ◌>>=◌, protocol_error,
}
use eltdx.Base.Int.{ℤ, pos, negsuc}
use eltdx.Protocol.Text.{
  Text, codes, text_eq, starts_with, starts_with_any, member, is_digits, lower, strip,
}

abbrev pub sz : Text
sz = b's' ∷ b'z' ∷ []

abbrev pub sh : Text
sh = b's' ∷ b'h' ∷ []

abbrev pub bj : Text
bj = b'b' ∷ b'j' ∷ []

-- `MARKET_TO_ID[market]`; a missing key cannot be reached from `normalize_market`.
abbrev pub market_id : Text → Result ℕ
market_id text =
    if text_eq text sz
    then ok 0
    else if text_eq text sh
    then ok 1
    else if text_eq text bj
    then ok 2
    else err protocol_error

-- `ID_TO_MARKET[value]`
abbrev pub market_of_id : ℕ → Result Text
market_of_id zero = ok sz
market_of_id (suc zero) = ok sh
market_of_id (suc (suc zero)) = ok bj
market_of_id _ = err protocol_error

-- `aliases.get(text, text)`
abbrev pub market_alias : Text → Text
market_alias text =
    if text_eq text (codes "0") || text_eq text (codes "sza") || text_eq text (codes "深市")
    then sz
    else if text_eq text (codes "1") || text_eq text (codes "sha") || text_eq text (codes "沪市")
    then sh
    else if text_eq text (codes "2") || text_eq text (codes "bse") || text_eq text (codes "北交所")
    then bj
    else text

-- The argument `str | int`.
pub data MarketValue : Type 0 where
  by_id : ℤ → MarketValue
  by_text : Text → MarketValue

abbrev pub is_market : Text → Bool
is_market text = member text (sz ∷ sh ∷ bj ∷ [])

unfoldable pub normalize_market : MarketValue → Result Text
normalize_market (by_id (pos n)) = market_of_id n
normalize_market (by_id (negsuc n)) = err protocol_error
normalize_market (by_text value) =
    let text = market_alias (lower (strip value)) in
    if not (is_market text) then err protocol_error else ok text

unfoldable pub market_to_id : MarketValue → Result ℕ
unfolding normalize_market
market_to_id value = do market ← normalize_market value; market_id market

-- `_SH_BOND_PREFIXES`
abbrev pub sh_bond_prefixes : List Text
sh_bond_prefixes =
    codes "010"
    ∷ codes "019"
    ∷ codes "110"
    ∷ codes "113"
    ∷ codes "120"
    ∷ codes "122"
    ∷ codes "124"
    ∷ codes "126"
    ∷ codes "130"
    ∷ []

abbrev sh_prefixes : List Text
sh_prefixes = codes "5" ∷ codes "6" ∷ codes "9" ∷ codes "110" ∷ codes "113" ∷ codes "118" ∷ []

abbrev sz_prefixes : List Text
sz_prefixes = codes "0" ∷ codes "1" ∷ codes "2" ∷ codes "3" ∷ []

abbrev bj_prefixes : List Text
bj_prefixes = codes "4" ∷ codes "8" ∷ []

-- The market of a bare code of six digits, by its prefix.
unfoldable pub infer_market : Text → Result Text
infer_market text =
    if starts_with (codes "92") text
    then ok (bj ++ text)
    else if starts_with_any sh_prefixes text
    then ok (sh ++ text)
    else if member (take 3 text) sh_bond_prefixes
    then ok (sh ++ text)
    else if starts_with_any sz_prefixes text
    then ok (sz ++ text)
    else if starts_with_any bj_prefixes text
    then ok (bj ++ text)
    else err protocol_error

-- The part of `normalize_code` after the text is stripped and in lower case.
unfoldable pub normalize_text : Text → Result Text
unfolding infer_market
normalize_text text =
    if length text == 8 && is_market (take 2 text) && is_digits (drop 2 text)
    then ok text
    else if not (length text == 6) || not (is_digits text)
    then err protocol_error
    else infer_market text

unfoldable pub normalize_code : Text → Result Text
normalize_code code = normalize_text (lower (strip code))

unfoldable pub split_code : Text → Result (ℕ × Text × Text)
unfolding normalize_code market_to_id
split_code code = do
  full_code ← normalize_code code
  let market = take 2 full_code
  let number = drop 2 full_code
  id ← market_to_id (by_text market)
  ok (id, market, number)

abbrev pricing_etf_prefixes : List Text
pricing_etf_prefixes =
    codes "15"
    ∷ codes "16"
    ∷ codes "50"
    ∷ codes "51"
    ∷ codes "52"
    ∷ codes "53"
    ∷ codes "56"
    ∷ codes "58"
    ∷ []

pub price_divisor : Text → Result ℕ
unfolding normalize_code
price_divisor code = do
  full_code ← normalize_code code
  ok (if starts_with_any pricing_etf_prefixes (drop 2 full_code) then 10 else 1)
