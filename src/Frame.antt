-- ===== src/Frame.antt =====
-- Response frames of the extended-quote and MAC protocols: src/eltdx/ex/frame.py,
-- src/eltdx/mac/codec.py, the `_binary.py` helpers of both, and src/eltdx/protocol/decompress.py.
pub mod Laws
pub mod Body
use eltdx.Base.{
  ℕ, zero, suc, ◌+◌, ◌<◌, ◌≤◌, ◌≡◌, Bool, true, false, not, ◌&&◌, ◌||◌, Option, none, some, [], ◌∷◌,
  ◌++◌, length, ltb, leb, ◌==◌, if◌then◌else◌, Result, Error, ok, err, ◌>>=◌, ◌>>◌, raise_if,
  protocol_error, zlib_error, decompress_limit,
}
use eltdx.Wire.{Bytes, slice, le_value, pack_uint}

-- `FrameHeader` and `MacFrameHeader`.
pub record FrameHeader : Type 0 where
  pub magic : ℕ
  pub seq_id : ℕ
  pub method : ℕ
  pub zipsize : ℕ
  pub unzipsize : ℕ

abbrev pub header_size : ℕ
header_size = 16

abbrev pub frame_magic : ℕ
frame_magic = 7654321

-- `struct.unpack_from("<IIIHH", buf, 0)` on a buffer that is long enough.
abbrev pub unpack_header : Bytes → FrameHeader
unpack_header buf = record {
  magic = le_value (slice 0 4 buf);
  seq_id = le_value (slice 4 4 buf);
  method = le_value (slice 8 4 buf);
  zipsize = le_value (slice 12 2 buf);
  unzipsize = le_value (slice 14 2 buf);
}

-- ex/frame.py
unfoldable pub parse_header : Bytes → Result FrameHeader
parse_header buf =
    if ltb (length buf) header_size then err protocol_error else ok (unpack_header buf)

-- `_binary.require_bytes`; offsets are never negative where it is called.
unfoldable pub require_bytes : Bytes → ℕ → ℕ → Result (Unit {0})
require_bytes buf start size = if ltb (length buf) (start + size) then err protocol_error else ok tt

-- `_binary.slice_bytes`
unfoldable pub slice_bytes : Bytes → ℕ → ℕ → Result Bytes
unfolding require_bytes
slice_bytes buf start size = do require_bytes buf start size; ok (slice start size buf)

-- mac/codec.py
unfoldable pub parse_mac_header : Bytes → Result FrameHeader
unfolding require_bytes
parse_mac_header buf = do require_bytes buf 0 header_size; ok (unpack_header buf)

-- ex/frame.py; `unzipsize` defaults to `zipsize`.
unfoldable pub encode_header : ℕ → ℕ → ℕ → Option ℕ → Result Bytes
encode_header seq_id method zipsize unzipsize = do
  let size : ℕ = elim unzipsize [ none ↦ zipsize | some n ↦ n ]
  a ← pack_uint 4 frame_magic
  b ← pack_uint 4 seq_id
  c ← pack_uint 4 method
  d ← pack_uint 2 zipsize
  e ← pack_uint 2 size
  ok (a ++ (b ++ (c ++ (d ++ e))))

abbrev pub mac_head_flag : ℕ
mac_head_flag = 0x1c

-- `build_mac_request` of mac/codec.py: a header of ten bytes, the message id, and the body.
unfoldable pub build_mac_request : ℕ → Bytes → ℕ → Result Bytes
build_mac_request msg_id body head_flag = do
  id ← pack_uint 2 msg_id
  let inner = id ++ body
  flag ← pack_uint 1 head_flag
  customize ← pack_uint 4 0
  version ← pack_uint 1 1
  size ← pack_uint 2 (length inner)
  ok (flag ++ (customize ++ (version ++ (size ++ (size ++ inner)))))

-- What `zlib.decompressobj().decompress(raw, limit)` leaves behind.
pub record Inflation : Type 0 where
  pub output : Bytes
  pub unconsumed_tail : Bytes
  pub unused_data : Bytes
  pub eof : Bool

-- `zlib`: `none` is `zlib.error`. The documentation bounds the output by a limit above 0.
pub record Zlib : Type 0 where
  pub inflate : Bytes → ℕ → Option Inflation
  pub inflate_bound :
      (raw : Bytes) (limit : ℕ) (r : Inflation)
      → 0 < limit
      → inflate raw limit ≡ some r
      → length r.output ≤ limit

abbrev pub max_frame_unzipped_bytes : ℕ
max_frame_unzipped_bytes = 65535

abbrev is_empty : Bytes → Bool
is_empty [] = true
is_empty (b ∷ bs) = false

abbrev check_inflation : Inflation → Result Bytes
check_inflation r =
    if not (is_empty r.unconsumed_tail) || not (is_empty r.unused_data)
    then err decompress_limit
    else if not r.eof
    then err zlib_error
    else ok r.output

-- protocol/decompress.py
unfoldable pub decompress_limited : Zlib → Bytes → ℕ → Result Bytes
decompress_limited zlib raw limit = elim (zlib.inflate raw limit) [
  | none ↦ err zlib_error
  | some r ↦ check_inflation r
]

-- `except DecompressLimitError` and `except zlib.error`, both turned into `ProtocolError`.
abbrev pub as_protocol_error : Result Bytes → Result Bytes
as_protocol_error (ok body) = ok body
as_protocol_error (err zlib_error) = err protocol_error
as_protocol_error (err decompress_limit) = err protocol_error
as_protocol_error (err e) = err e

-- ex/frame.py
unfoldable pub decompress_body : Zlib → FrameHeader → Bytes → Result Bytes
unfolding decompress_limited
decompress_body zlib header raw_body = do
  raise_if (not (length raw_body == header.zipsize)) protocol_error
  body ←
      if header.zipsize == header.unzipsize
      then ok raw_body
      else as_protocol_error (decompress_limited zlib raw_body max_frame_unzipped_bytes)
  raise_if (not (length body == header.unzipsize)) protocol_error
  ok body

-- mac/codec.py, with the same steps
abbrev pub decompress_mac_body : Zlib → FrameHeader → Bytes → Result Bytes
unfolding decompress_body
decompress_mac_body zlib header raw_body = decompress_body zlib header raw_body
