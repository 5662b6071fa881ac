-- ===== src/Ex/Instruments.antt =====
-- The lists of markets and instruments and their number: get_markets.py, get_instrument_info.py and
-- get_instrument_count.py of src/eltdx/ex/commands. Decoding GBK is the argument `gbk`.
pub mod Laws
use eltdx.Base.{
  ℕ, Bool, true, false, ◌&&◌, List, [], ◌∷◌, ◌++◌, length, Result, ok, err, ◌>>=◌, ◌>>◌, raise_if,
  value_error, ltb, ◌==◌, if◌then◌else◌, ◌-◌,
}
use eltdx.Wire.{Bytes, slice, le_value, pack_uint}
use eltdx.Wire.Records.{pack_row}
use eltdx.Wire.Counted.{counted}
use eltdx.Protocol.Text.{Text}
use eltdx.Ex.Transaction.{pack_signed}

pub record ExMarketInfo : Type 0 where
  pub market : ℕ
  pub category : ℕ
  pub name : Text
  pub short_name : Text
  pub raw : Bytes

pub record ExInstrumentInfo : Type 0 where
  pub category : ℕ
  pub market : ℕ
  pub code : Text
  pub name : Text
  pub desc : Text
  pub raw : Bytes

abbrev pub drop_zero : ℕ → Text → Text
drop_zero c [] = if c == 0 then [] else c ∷ []
drop_zero c (x ∷ xs) = c ∷ x ∷ xs

-- `text.rstrip("\x00")`
abbrev pub rstrip_zero : Text → Text
rstrip_zero [] = []
rstrip_zero (c ∷ cs) = drop_zero c (rstrip_zero cs)

-- A slot of the list that is not used.
abbrev pub is_unused : ExMarketInfo → Bool
is_unused info = info.category == 0 && info.market == 0

abbrev pub skip_unused : List ExMarketInfo → List ExMarketInfo
skip_unused [] = []
skip_unused (info ∷ infos) =
    let rest = skip_unused infos in if is_unused info then rest else info ∷ rest

module _ (gbk : Bytes → Text) where
  -- `raw.decode("gbk", errors="replace").rstrip("\x00")`
  abbrev pub text_field : Bytes → Text
  text_field raw = rstrip_zero (gbk raw)

  abbrev pub decode_market : Bytes → ExMarketInfo
  decode_market raw = record {
    market = le_value (slice 33 1 raw);
    category = le_value (slice 0 1 raw);
    name = text_field (slice 1 32 raw);
    short_name = text_field (slice 34 2 raw);
    raw = raw;
  }

  -- `GetExMarketsCmd.parse_response`
  unfoldable pub parse_markets : Bytes → List ExMarketInfo
  unfolding counted
  parse_markets body = skip_unused (counted 2 64 decode_market body)

  abbrev pub decode_info : Bytes → ExInstrumentInfo
  decode_info raw = record {
    category = le_value (slice 0 1 raw);
    market = le_value (slice 1 1 raw);
    code = text_field (slice 5 9 raw);
    name = text_field (slice 14 17 raw);
    desc = text_field (slice 31 9 raw);
    raw = raw;
  }

  -- `GetExInstrumentInfoCmd.parse_response`
  unfoldable pub parse_infos : Bytes → List ExInstrumentInfo
  unfolding counted
  parse_infos body = counted 6 64 decode_info body

-- `GetExInstrumentCountCmd.parse_response`
unfoldable pub parse_count : Bytes → ℕ
parse_count body = if ltb (length body) 23 then 0 else le_value (slice 19 4 body)

abbrev info_header : Bytes
info_header = 1 ∷ 4 ∷ 0x48 ∷ 0x67 ∷ 0 ∷ 1 ∷ 8 ∷ 0 ∷ 8 ∷ 0 ∷ 0xf5 ∷ 0x23 ∷ []

-- The constructor of `GetExInstrumentInfoCmd` and its `build_request`
pub build_infos : ℕ → ℕ → Result Bytes
unfolding pack_row
build_infos start count = do
  raise_if (count == 0) value_error
  row ← pack_row (pack_uint 4 start ∷ pack_uint 2 count ∷ [])
  ok (info_header ++ row)
