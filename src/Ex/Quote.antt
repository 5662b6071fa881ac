-- ===== src/Ex/Quote.antt =====
-- The quote of one instrument: src/eltdx/ex/commands/get_instrument_quote.py. Decoding UTF-8 is the
-- argument `utf8`.
use eltdx.Base.{
  ℕ, ◌≤◌, ◌≡◌, refl, List, [], ◌∷◌, ◌++◌, take, drop, length, arith, Option, none, some, Result, ok,
  ◌>>=◌, ◌>>◌, raise_if, value_error, ltb, if◌then◌else◌, ◌==◌, le→ltb,
}
use eltdx.Wire.{Bytes, slice, le_value, pack_uint}
use eltdx.Wire.Records.{pack_row}
use eltdx.Protocol.Text.{Text, codes}
use eltdx.Ex.Transaction.{pack_text}
use eltdx.Ex.Instruments.{rstrip_zero}
use eltdx.Ex.QuoteList.{Value, Names, assign, unpack, sized}
use eltdx.Ex.QuoteList.Laws.{assign_even, length-unpack, sized-ok, slice-length}

abbrev key : Text → Option Text
key = some

abbrev pub quote_format : Text
quote_format = codes "fffffIIIIIIIIIfffffIIIIIfffffIIIII"

-- The keywords that the values are given to, in the order of the format.
abbrev pub quote_names : Names
quote_names =
    key (codes "pre_close")
    ∷ key (codes "open")
    ∷ key (codes "high")
    ∷ key (codes "low")
    ∷ key (codes "price")
    ∷ key (codes "kaicang")
    ∷ none
    ∷ key (codes "zongliang")
    ∷ key (codes "xianliang")
    ∷ none
    ∷ key (codes "neipan")
    ∷ key (codes "waipan")
    ∷ none
    ∷ key (codes "chicang")
    ∷ key (codes "bid1")
    ∷ key (codes "bid2")
    ∷ key (codes "bid3")
    ∷ key (codes "bid4")
    ∷ key (codes "bid5")
    ∷ key (codes "bid_vol1")
    ∷ key (codes "bid_vol2")
    ∷ key (codes "bid_vol3")
    ∷ key (codes "bid_vol4")
    ∷ key (codes "bid_vol5")
    ∷ key (codes "ask1")
    ∷ key (codes "ask2")
    ∷ key (codes "ask3")
    ∷ key (codes "ask4")
    ∷ key (codes "ask5")
    ∷ key (codes "ask_vol1")
    ∷ key (codes "ask_vol2")
    ∷ key (codes "ask_vol3")
    ∷ key (codes "ask_vol4")
    ∷ key (codes "ask_vol5")
    ∷ []

-- `ExInstrumentQuote`, with its numbers by their names
pub record ExInstrumentQuote (Float : Type 0) : Type 0 where
  pub market : ℕ
  pub code : Text
  pub fields : List (Text × Value Float)
  pub raw : Bytes

module _ {Float : Type 0} (unpack_f : Bytes → Float) (utf8 : Bytes → Text) where
  -- The quote, of the bytes with the market and the code and of the values.
  abbrev quote_of : Bytes → List (Text × Value Float) → Bytes → ExInstrumentQuote Float
  quote_of head fields body = record {
    market = le_value (take 1 head);
    code = rstrip_zero (utf8 (drop 1 head));
    fields = fields;
    raw = take 150 body;
  }

  -- `parse_response`: the four bytes behind the code are passed over.
  unfoldable pub parse_quote : Bytes → Result (Option (ExInstrumentQuote Float))
  parse_quote body = if ltb (length body) 150 then ok none else (do
    head ← sized 10 (slice 0 10 body)
    values ← unpack unpack_f utf8 quote_format (slice 14 136 body)
    fields ← assign quote_names values
    ok (some (quote_of head fields body)))

  -- Every response of 150 bytes and more gives a quote: the values are as many as the names.
  parse_quote_total :
      (body : Bytes)
      → 150 ≤ length body
      → (quote : ExInstrumentQuote Float) × (parse_quote body ≡ ok (some quote))
        × (quote.raw ≡ take 150 body)
  unfolding parse_quote
  parse_quote_total body long =
      let headed = sized-ok 10 (slice 0 10 body) (slice-length 0 10 body (omega arith)) in
      let (values, unpacked, many) =
        length-unpack unpack_f utf8 quote_format (slice 14 136 body)
          (slice-length 14 136 body (omega arith)) in
      let (fields, assigned) = assign_even quote_names values (omega (arith, many)) in
      (
        quote_of (slice 0 10 body) fields body,
        rw (le→ltb (length body) 150 long) (rw headed (rw unpacked (rw assigned refl))),
        refl,
      )

abbrev quote_header : Bytes
quote_header = 1 ∷ 1 ∷ 8 ∷ 2 ∷ 2 ∷ 1 ∷ 0x0c ∷ 0 ∷ 0x0c ∷ 0 ∷ 0xfa ∷ 0x23 ∷ []

-- The constructor and `build_request`.
pub build_quote : ℕ → Bytes → Result Bytes
unfolding pack_row
build_quote market code = do
  raise_if (length code == 0) value_error
  row ← pack_row (pack_uint 1 market ∷ ok (pack_text 9 code) ∷ [])
  ok (quote_header ++ row)
