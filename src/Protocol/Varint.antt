-- ===== src/Protocol/Varint.antt =====
-- `consume_varint`, `consume_price` and `decode_k` of src/eltdx/protocol/unit.py.
pub mod Encoding
pub mod Bounds
use eltdx.Base.{
  ℕ, zero, suc, ◌+◌, ◌*◌, ◌/◌, ◌%◌, ◌^◌, Bool, true, List, [], ◌∷◌, drop, length, leb, ◌==◌,
  if◌then◌else◌, Result, ok, err, ◌>>=◌, protocol_error,
}
use eltdx.Base.Int.{ℤ, pos, neg_ℕ, ◌+ℤ◌, scale}
use eltdx.Wire.{Bytes}

-- The rounds of the loop after the first, on `payload[position:]`: what is left is empty exactly
-- when `position >= len(payload)`.
pub varint_tail : Bytes → ℕ → ℕ → ℕ → Result (ℕ × ℕ)
varint_tail [] position shift value = err protocol_error
varint_tail (byte ∷ rest) position shift value =
    let value' = value + (byte % 128) * 2 ^ shift in
    let next = varint_tail rest (position + 1) (shift + 7) value' in
    if byte / 128 % 2 == 0 then ok (value', position + 1) else next

-- The loop, its first round apart: six bits of the first byte count, and bit 6 is the sign.
pub varint_at : Bytes → ℕ → Result (ℤ × ℕ)
varint_at [] offset = err protocol_error
varint_at (byte ∷ rest) offset = do
  (value, position) ←
      if byte / 128 % 2 == 0
      then ok (byte % 64, offset + 1)
      else varint_tail rest (offset + 1) 6 (byte % 64)
  ok (if byte / 64 % 2 == 0 then pos value else neg_ℕ value, position)

unfoldable pub consume_varint : Bytes → ℕ → Result (ℤ × ℕ)
unfolding varint_at varint_tail
consume_varint payload offset =
    if leb (length payload) offset
    then err protocol_error
    else varint_at (drop offset payload) offset

unfoldable pub consume_price : Bytes → ℕ → Result (ℤ × ℕ)
unfolding consume_varint
consume_price payload offset = consume_varint payload offset

pub record Candle : Type 0 where
  pub current : ℤ
  pub last_close : ℤ
  pub open_price : ℤ
  pub high : ℤ
  pub low : ℤ

pub decode_k : Bytes → ℕ → Result (Candle × ℕ)
unfolding consume_price
decode_k payload offset = do
  (current_delta, offset1) ← consume_price payload offset
  (last_close_delta, offset2) ← consume_price payload offset1
  (open_delta, offset3) ← consume_price payload offset2
  (high_delta, offset4) ← consume_price payload offset3
  (low_delta, offset5) ← consume_price payload offset4
  ok (
    record {
      current = scale current_delta 10;
      last_close = scale (last_close_delta +ℤ current_delta) 10;
      open_price = scale (open_delta +ℤ current_delta) 10;
      high = scale (high_delta +ℤ current_delta) 10;
      low = scale (low_delta +ℤ current_delta) 10;
    },
    offset5,
  )
