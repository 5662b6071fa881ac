-- ===== src/Frame/Laws.antt =====
-- Frame headers and MAC requests: writing and reading agree.
use eltdx.Base.{
  ℕ, suc, ◌+◌, ◌<◌, ◌≤◌, ◌≡◌, ◌^◌, refl, ap, false, Option, none, some, Result, [], ◌∷◌, ◌++◌,
  length, ltb, ok, err, arith, lt→ltb, le→ltb, take_all, struct_error, ◌⊎◌,
}
use eltdx.Wire.{Bytes, slice, le_value, le_bytes, u16_round, u32_round}
use eltdx.Frame.{
  FrameHeader, frame_magic, parse_header, parse_mac_header, encode_header, build_mac_request,
  unpack_header,
}

header_eq :
    {a b c d e a' b' c' d' e' : ℕ}
    → a ≡ a'
    → b ≡ b'
    → c ≡ c'
    → d ≡ d'
    → e ≡ e'
    → ◌≡◌ {A = FrameHeader}
        (record { magic = a; seq_id = b; method = c; zipsize = d; unzipsize = e })
        (record { magic = a'; seq_id = b'; method = c'; zipsize = d'; unzipsize = e' })
header_eq p q r s t =
    λ i. record { magic = p i; seq_id = q i; method = r i; zipsize = s i; unzipsize = t i }

abbrev header_bytes : ℕ → ℕ → ℕ → ℕ → Bytes
header_bytes seq_id method zipsize unzipsize =
    le_bytes 4 frame_magic
    ++ (le_bytes 4 seq_id ++ (le_bytes 4 method ++ (le_bytes 2 zipsize ++ le_bytes 2 unzipsize)))

unpack_header-header_bytes :
    (seq_id method zipsize unzipsize : ℕ) (more : Bytes)
    → seq_id < 2 ^ 32
    → method < 2 ^ 32
    → zipsize < 2 ^ 16
    → unzipsize < 2 ^ 16
    → unpack_header (header_bytes seq_id method zipsize unzipsize ++ more) ≡ record {
      magic = frame_magic;
      seq_id = seq_id;
      method = method;
      zipsize = zipsize;
      unzipsize = unzipsize;
    }
unpack_header-header_bytes seq_id method zipsize unzipsize more hs hm hz hu =
    header_eq refl (u32_round seq_id hs) (u32_round method hm) (u16_round zipsize hz)
      (u16_round unzipsize hu)

sixteen : (more : Bytes) (a b c d : ℕ) → ltb (length (header_bytes a b c d ++ more)) 16 ≡ false
sixteen more a b c d = le→ltb _ _ (omega arith)

abbrev pub size_or : ℕ → Option ℕ → ℕ
size_or zipsize none = zipsize
size_or zipsize (some unzipsize) = unzipsize

-- Both readers of a header give back these fields from what was encoded, with more bytes behind it.
abbrev pub ReadBack : ℕ → ℕ → ℕ → ℕ → Bytes → Result Bytes → Type 0
ReadBack seq_id method zipsize unzipsize more encoded =
    let header : FrameHeader = record {
      magic = frame_magic;
      seq_id = seq_id;
      method = method;
      zipsize = zipsize;
      unzipsize = unzipsize;
    } in
    (bytes : Bytes) × (encoded ≡ ok bytes)
    × (parse_header (bytes ++ more) ≡ ok header)
    × (parse_mac_header (bytes ++ more) ≡ ok header)

sized_header-round_trip :
    (seq_id method zipsize unzipsize : ℕ) (more : Bytes)
    → seq_id < 2 ^ 32
    → method < 2 ^ 32
    → zipsize < 2 ^ 16
    → unzipsize < 2 ^ 16
    → ReadBack seq_id method zipsize unzipsize more
        (encode_header seq_id method zipsize (some unzipsize))
unfolding encode_header parse_header parse_mac_header
sized_header-round_trip seq_id method zipsize unzipsize more hs hm hz hu =
    let long = sixteen more seq_id method zipsize unzipsize in
    let fields = unpack_header-header_bytes seq_id method zipsize unzipsize more hs hm hz hu in
    (
      header_bytes seq_id method zipsize unzipsize,
      rw (lt→ltb _ _ hs, lt→ltb _ _ hm, lt→ltb _ _ hz, lt→ltb _ _ hu) refl,
      rw long (ap ok fields),
      rw long (ap ok fields),
    )

-- `encode_header` accepts every field that fits its width, and both readers of a header give the
-- fields back, whatever bytes follow; without a size after inflation they give back the packed size
-- in its place.
pub parse_header-encode_header :
    (seq_id method zipsize : ℕ) (unzipsize : Option ℕ) (more : Bytes)
    → seq_id < 2 ^ 32
    → method < 2 ^ 32
    → zipsize < 2 ^ 16
    → size_or zipsize unzipsize < 2 ^ 16
    → ReadBack seq_id method zipsize
        (size_or zipsize unzipsize)
        more
        (encode_header seq_id method zipsize unzipsize)
unfolding encode_header
parse_header-encode_header seq_id method zipsize none more hs hm hz hu =
    sized_header-round_trip seq_id method zipsize zipsize more hs hm hz hu
parse_header-encode_header seq_id method zipsize (some unzipsize) more hs hm hz hu =
    sized_header-round_trip seq_id method zipsize unzipsize more hs hm hz hu

-- A MAC request is the flag, four zero bytes, the version 1, and twice the length of all that
-- follows: the message id and the body. A reader that trusts either length gets exactly those.
pub build_mac_request_layout :
    (msg_id head_flag : ℕ) (body : Bytes)
    → msg_id < 2 ^ 16
    → head_flag < 2 ^ 8
    → length body + 2 < 2 ^ 16
    → (request : Bytes) × (build_mac_request msg_id body head_flag ≡ ok request)
      × (slice 0 1 request ≡ head_flag ∷ [])
      × (le_value (slice 6 2 request) ≡ length body + 2)
      × (le_value (slice 8 2 request) ≡ length body + 2)
      × (le_value (slice 10 2 request) ≡ msg_id)
      × (slice 12 (length body) request ≡ body)
      × (length request ≡ 12 + length body)
unfolding build_mac_request
build_mac_request_layout msg_id head_flag body hm hf hb = (
  le_bytes 1 head_flag
      ++ (le_bytes 4 0
          ++ (le_bytes 1 1
              ++ (le_bytes 2 (length body + 2)
                  ++ (le_bytes 2 (length body + 2) ++ (le_bytes 2 msg_id ++ body))))),
  rw (lt→ltb _ _ hm, lt→ltb _ _ hf) (rw inner_length (rw (lt→ltb _ _ hb) refl)),
  ap (λ b. b ∷ []) (omega arith),
  u16_round (length body + 2) hb,
  u16_round (length body + 2) hb,
  u16_round msg_id hm,
  take_all (length body) body (omega arith),
  omega arith,
)
  where
    inner_length : suc (suc (length body)) ≡ length body + 2
    inner_length = omega arith

-- It is refused with `struct.error` when the id, the flag or the length does not fit its field.
pub build_mac_request_refused :
    (msg_id head_flag : ℕ) (body : Bytes)
    → (2 ^ 16 ≤ msg_id) ⊎ ((2 ^ 8 ≤ head_flag) ⊎ (2 ^ 16 ≤ length body + 2))
    → build_mac_request msg_id body head_flag ≡ err struct_error
unfolding build_mac_request
build_mac_request_refused msg_id head_flag body h = ground arith
