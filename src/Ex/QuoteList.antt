-- ===== src/Ex/QuoteList.antt =====
-- The quotes of a category: src/eltdx/ex/commands/get_instrument_quote_list.py. A row is unpacked by
-- its format and assigned to the names on the left; decoding GBK is the argument `gbk`.
pub mod Laws
use eltdx.Base.{
  ℕ, zero, suc, ◌+◌, ◌*◌, Bool, true, false, not, ◌||◌, List, [], ◌∷◌, ◌++◌, take, drop, length,
  Option, none, some, Result, ok, err, ◌>>=◌, ◌>>◌, raise_if, value_error, struct_error, ltb, ◌==◌,
  if◌then◌else◌, map,
}
use eltdx.Wire.{Bytes, slice, le_value, pack_uint}
use eltdx.Wire.Records.{pack_row}
use eltdx.Protocol.Text.{Text, codes}

-- `<I` or `<f`
pub data Value (Float : Type 0) : Type 0 where
  unsigned : ℕ → Value Float
  single : Float → Value Float

-- The names that a row is assigned to: a key of the row, or a name that is not used.
abbrev pub Names : Type 0
Names = List (Option Text)

abbrev key : Text → Option Text
key = some

abbrev pub futures_format : Text
futures_format = codes "IfffffIIIIfIIfIfIIIIIIIIIfIIIIIIIII"

abbrev pub futures_names : Names
futures_names =
    key (codes "BiShu")
    ∷ key (codes "ZuoJie")
    ∷ key (codes "JinKai")
    ∷ key (codes "ZuiGao")
    ∷ key (codes "ZuiDi")
    ∷ key (codes "MaiChu")
    ∷ key (codes "KaiCang")
    ∷ none
    ∷ key (codes "ZongLiang")
    ∷ key (codes "XianLiang")
    ∷ key (codes "ZongJinE")
    ∷ key (codes "NeiPan")
    ∷ key (codes "WaiPan")
    ∷ none
    ∷ key (codes "ChiCangLiang")
    ∷ key (codes "MaiRuJia")
    ∷ none
    ∷ none
    ∷ none
    ∷ none
    ∷ key (codes "MaiRuLiang")
    ∷ none
    ∷ none
    ∷ none
    ∷ none
    ∷ key (codes "MaiChuJia")
    ∷ none
    ∷ none
    ∷ none
    ∷ none
    ∷ key (codes "MaiChuLiang")
    ∷ none
    ∷ none
    ∷ none
    ∷ []

abbrev pub hk_format : Text
hk_format = codes "IfffffIfIIfIIIIfffffIIIIIfffffIIIII"

abbrev pub hk_names : Names
hk_names =
    key (codes "HuoYueDu")
    ∷ key (codes "ZuoShou")
    ∷ key (codes "JinKai")
    ∷ key (codes "ZuiGao")
    ∷ key (codes "ZuiDi")
    ∷ key (codes "XianJia")
    ∷ none
    ∷ key (codes "MaiRuJia")
    ∷ key (codes "ZongLiang")
    ∷ key (codes "XianLiang")
    ∷ key (codes "ZongJinE")
    ∷ none
    ∷ none
    ∷ key (codes "Nei")
    ∷ key (codes "Wai")
    ∷ key (codes "MaiRuJia1")
    ∷ key (codes "MaiRuJia2")
    ∷ key (codes "MaiRuJia3")
    ∷ key (codes "MaiRuJia4")
    ∷ key (codes "MaiRuJia5")
    ∷ key (codes "MaiRuLiang1")
    ∷ key (codes "MaiRuLiang2")
    ∷ key (codes "MaiRuLiang3")
    ∷ key (codes "MaiRuLiang4")
    ∷ key (codes "MaiRuLiang5")
    ∷ key (codes "MaiChuJia1")
    ∷ key (codes "MaiChuJia2")
    ∷ key (codes "MaiChuJia3")
    ∷ key (codes "MaiChuJia4")
    ∷ key (codes "MaiChuJia5")
    ∷ key (codes "MaiChuLiang1")
    ∷ key (codes "MaiChuLiang2")
    ∷ key (codes "MaiChuLiang3")
    ∷ key (codes "MaiChuLiang4")
    ∷ key (codes "MaiChuLiang5")
    ∷ []

abbrev is_zero : ℕ → Bool
is_zero b = b == 0

abbrev pub lstrip_zeros : Bytes → Bytes
lstrip_zeros [] = []
lstrip_zeros (b ∷ bs) = let rest = lstrip_zeros bs in if is_zero b then rest else b ∷ bs

abbrev pub keep_byte : ℕ → Bytes → Bytes
keep_byte b [] = if is_zero b then [] else b ∷ []
keep_byte b (c ∷ cs) = b ∷ c ∷ cs

abbrev pub rstrip_zeros : Bytes → Bytes
rstrip_zeros [] = []
rstrip_zeros (b ∷ bs) = keep_byte b (rstrip_zeros bs)

-- What `struct.unpack` does with a buffer: one of another size raises a `struct.error`.
unfoldable pub sized : ℕ → Bytes → Result Bytes
sized size buffer = if length buffer == size then ok buffer else err struct_error

module _ {Float : Type 0} where
  abbrev pub keep :
      Option Text → Value Float → List (Text × Value Float) → List (Text × Value Float)
  keep none value fields = fields
  keep (some name) value fields = (name, value) ∷ fields

  -- `(a, b, ...) = values`, which raises a `ValueError` for too few or too many values
  unfoldable pub assign : Names → List (Value Float) → Result (List (Text × Value Float))
  assign [] [] = ok []
  assign [] (value ∷ values) = err value_error
  assign (name ∷ names) [] = err value_error
  assign (name ∷ names) (value ∷ values) = do
    fields ← assign names values
    ok (keep name value fields)

pub record QuoteRow (Float : Type 0) : Type 0 where
  pub market : ℕ
  pub code : Text
  pub fields : List (Text × Value Float)

module _ {Float : Type 0} (unpack_f : Bytes → Float) (gbk : Bytes → Text) where
  abbrev pub unpack_field : ℕ → Bytes → Value Float
  unpack_field c bs = if c == b'f' then single (unpack_f bs) else unsigned (le_value bs)

  unfoldable pub unpack_fields : Text → Bytes → List (Value Float)
  unpack_fields [] bs = []
  unpack_fields (c ∷ format) bs = unpack_field c (take 4 bs) ∷ unpack_fields format (drop 4 bs)

  -- `struct.unpack("<" + format, bs)`, of fields of four bytes
  unfoldable pub unpack : Text → Bytes → Result (List (Value Float))
  unpack format bs = do buffer ← sized (4 * length format) bs; ok (unpack_fields format buffer)

  -- `_parse_futures` and `_parse_hk_stocks`: the position behind the row, and the row if it is there
  unfoldable pub parse_row :
      Text → Names → ℕ → Text → Bytes → ℕ → Result (ℕ × List (QuoteRow Float))
  parse_row format names market code body at =
      if ltb (length body) (at + 140) then ok (at + 290, []) else (do
        values ← unpack format (slice at 140 body)
        fields ← assign names values
        ok (at + 290, record { market = market; code = code; fields = fields } ∷ []))

  abbrev pub row_by_category : ℕ → ℕ → Text → Bytes → ℕ → Result (ℕ × List (QuoteRow Float))
  row_by_category category market code body at =
      if category == 3
      then parse_row futures_format futures_names market code body at
      else parse_row hk_format hk_names market code body at

  -- The loop of `parse_response`.
  unfoldable pub quote_loop : ℕ → ℕ → ℕ → Bytes → Result (List (QuoteRow Float))
  quote_loop category zero at body = ok []
  quote_loop category (suc n) at body =
      let rest = quote_loop category n (at + 10 + 290) body in
      if ltb (length body) (at + 10) then ok [] else (do
        head ← sized 10 (slice at 10 body)
        let market = le_value (take 1 head)
        let code = gbk (rstrip_zeros (lstrip_zeros (drop 1 head)))
        row ← row_by_category category market code body (at + 10)
        rows ← rest
        ok (row.1 ++ rows))

  -- `parse_response`
  unfoldable pub parse_quotes : ℕ → Bytes → Result (List (QuoteRow Float))
  parse_quotes category body =
      if ltb (length body) 2
      then ok []
      else (do head ← sized 2 (slice 0 2 body); quote_loop category (le_value head) 2 body)

-- `__init__`, for a start that is not negative
unfoldable pub check_quotes : ℕ → ℕ → Result (Unit {0})
check_quotes category count = do
  raise_if (not (category == 2 || category == 3)) value_error
  raise_if (count == 0) value_error

abbrev quotes_header : Bytes
quotes_header = 1 ∷ 0xc1 ∷ 6 ∷ 0x0b ∷ 0 ∷ 2 ∷ 0x0b ∷ 0 ∷ 0x0b ∷ 0 ∷ 0 ∷ 0x24 ∷ []

-- `build_request`
pub build_quotes : ℕ → ℕ → ℕ → Result Bytes
unfolding pack_row
build_quotes market start count = do
  row ← pack_row (
      pack_uint 1 market
      ∷ pack_uint 2 0
      ∷ pack_uint 2 start
      ∷ pack_uint 2 count
      ∷ pack_uint 2 1
      ∷ [])
  ok (quotes_header ++ row)
