-- ===== src/Tests/Protocol.antt =====
-- Runs of the theorems on codes, numbers and frames.
use eltdx.Base.{
  ℕ, ◌≡◌, ◌↔◌, ◌<◌, ◌≤◌, refl, [], ◌∷◌, ◌++◌, length, none, ok, err, true, protocol_error, arith,
}
use eltdx.Base.Int.{pos, negsuc}
use eltdx.Wire.{Bytes}
use eltdx.Protocol.Text.{Text, codes, is_digits, in_ranges}
use eltdx.Protocol.Code.{normalize_code, normalize_text, infer_market, split_code, market_of_id}
use eltdx.Protocol.Code.Shape.{IsFullCode}
use eltdx.Protocol.Code.Laws.{normalize_code-IsFullCode}
use eltdx.Protocol.Code.Split.{split_code_parts}
use eltdx.Protocol.Varint.{consume_varint}
use eltdx.Protocol.Varint.Encoding.{encode_varint, consume_varint-encode}
use eltdx.Protocol.Varint.Bounds.{consume_varint_bounds}
use eltdx.Frame.{
  FrameHeader, frame_magic, encode_header, parse_header, parse_mac_header, decompress_body,
}
use eltdx.Frame.Body.{Carries, decompress_body_iff, decompress_body_error}
use eltdx.Frame.Laws.{parse_header-encode_header}
use eltdx.Tests.Samples.{stored_zlib}

abbrev bare : Text
bare = codes "600000"

abbrev full : Text
full = codes "sh600000"

bare_normalized : normalize_code bare ≡ ok full
unfolding normalize_code normalize_text infer_market in_ranges
bare_normalized = refl

-- A digit is one of Unicode.
superscript : normalize_code (codes "sh60000²") ≡ ok (codes "sh60000²")
unfolding normalize_code normalize_text in_ranges
superscript = refl

normalize_code-IsFullCode_example : IsFullCode full × (normalize_code full ≡ ok full)
normalize_code-IsFullCode_example = normalize_code-IsFullCode bare full bare_normalized

split_code_parts_example :
    (id : ℕ) × (market number : Text) × (split_code bare ≡ ok (id, market, number))
    × (full ≡ market ++ number)
    × (market_of_id id ≡ ok market)
    × (length market ≡ 2)
    × (is_digits number ≡ true)
split_code_parts_example = split_code_parts bare full bare_normalized

consume_varint-encode_example :
    consume_varint (7 ∷ (encode_varint (negsuc 12344) ++ (9 ∷ []))) 1 ≡ ok (negsuc 12344, 4)
consume_varint-encode_example = consume_varint-encode (7 ∷ []) (9 ∷ []) (negsuc 12344)

varint_read : consume_varint (128 ∷ 1 ∷ []) 0 ≡ ok (pos 64, 2)
unfolding consume_varint
varint_read = refl

consume_varint_bounds_example :
    (0 < 2) × (2 ≤ 2) × (consume_varint (128 ∷ 1 ∷ 9 ∷ []) 0 ≡ ok (pos 64, 2))
consume_varint_bounds_example =
    consume_varint_bounds (128 ∷ 1 ∷ []) (9 ∷ []) 0 2 (pos 64) varint_read

abbrev sample_header : FrameHeader
sample_header = record {
  magic = frame_magic;
  seq_id = 258;
  method = 1200;
  zipsize = 2;
  unzipsize = 2;
}

parse_header-encode_header_example :
    (bytes : Bytes) × (encode_header 258 1200 2 none ≡ ok bytes)
    × (parse_header (bytes ++ (5 ∷ [])) ≡ ok sample_header)
    × (parse_mac_header (bytes ++ (5 ∷ [])) ≡ ok sample_header)
parse_header-encode_header_example =
    parse_header-encode_header 258 1200 2 none (5 ∷ []) (omega arith) (omega arith) (omega arith)
      (omega arith)

decompress_body_iff_example :
    (decompress_body stored_zlib sample_header (5 ∷ 6 ∷ []) ≡ ok (5 ∷ 6 ∷ [])) ↔ (
      (length {A = ℕ} (5 ∷ 6 ∷ []) ≡ 2)
      × Carries stored_zlib sample_header (5 ∷ 6 ∷ []) (5 ∷ 6 ∷ [])
      × (length {A = ℕ} (5 ∷ 6 ∷ []) ≡ 2))
decompress_body_iff_example =
    decompress_body_iff stored_zlib sample_header (5 ∷ 6 ∷ []) (5 ∷ 6 ∷ [])

short_refused : decompress_body stored_zlib sample_header (5 ∷ []) ≡ err protocol_error
unfolding decompress_body
short_refused = refl

decompress_body_error_example : protocol_error ≡ protocol_error
decompress_body_error_example =
    decompress_body_error stored_zlib sample_header (5 ∷ []) protocol_error short_refused
