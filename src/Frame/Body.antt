-- ===== src/Frame/Body.antt =====
-- What `decompress_body` returns and how it fails.
use eltdx.Base.{
  ℕ, ◌≡◌, ◌≢◌, ◌↔◌, refl, Bool, true, false, not, some, length, ◌==◌, ==_iff, if◌then◌else◌, Result,
  Error, ok, err, ◌>>=◌, ◌>>◌, raise_if, protocol_error, arith, Bool-cases, Option-cases, inl, inr,
  ◌⊎◌, ap, [], ◌∷◌, zlib_error, decompress_limit,
}
use eltdx.Wire.{Bytes}
use eltdx.Frame.{
  FrameHeader, Zlib, Inflation, decompress_body, as_protocol_error, decompress_limited,
  check_inflation, is_empty, max_frame_unzipped_bytes,
}

-- The stream inflates to `body` within the limit, to its end, with nothing left over.
abbrev pub InflatesTo : Zlib → Bytes → ℕ → Bytes → Type 0
InflatesTo zlib raw limit body =
    (r : Inflation) × (zlib.inflate raw limit ≡ some r)
    × (r.output ≡ body)
    × (r.unconsumed_tail ≡ [])
    × (r.unused_data ≡ [])
    × (r.eof ≡ true)

is_empty→eq : (bs : Bytes) → is_empty bs ≡ true → bs ≡ []
is_empty→eq [] h = refl
is_empty→eq (b ∷ bs) h = cc

check_inflation-ok :
    (r : Inflation) (body : Bytes)
    → check_inflation r ≡ ok body
    → (r.output ≡ body) × (r.unconsumed_tail ≡ []) × (r.unused_data ≡ []) × (r.eof ≡ true)
check_inflation-ok r body h =
    ground (arith, is_empty→eq r.unconsumed_tail, is_empty→eq r.unused_data)

check_inflation-whole :
    (r : Inflation) (body : Bytes)
    → r.output ≡ body
    → r.unconsumed_tail ≡ []
    → r.unused_data ≡ []
    → r.eof ≡ true
    → check_inflation r ≡ ok body
check_inflation-whole r body o t u e = rw (t, u, e) (ap ok o)

decompress_limited-InflatesTo :
    (zlib : Zlib) (raw : Bytes) (limit : ℕ) (body : Bytes)
    → (decompress_limited zlib raw limit ≡ ok body) ↔ InflatesTo zlib raw limit body
unfolding decompress_limited
decompress_limited-InflatesTo zlib raw limit body = (forth, back)
  where
    not_ok : ◌≡◌ {A = Result Bytes} (err zlib_error) (ok body) → ⊥
    not_ok e = cc

    forth : decompress_limited zlib raw limit ≡ ok body → InflatesTo zlib raw limit body
    forth h = elim (Option-cases (zlib.inflate raw limit)) [
      | inl corrupt ↦ absurd (not_ok (rw (corrupt, decompress_limited) at h))
      | inr (r, e) ↦
          let (o, t, u, f) = check_inflation-ok r body (rw (e, decompress_limited) at h) in
          (r, e, o, t, u, f)
    ]

    back : InflatesTo zlib raw limit body → decompress_limited zlib raw limit ≡ ok body
    back (r, e, o, t, u, f) = rw (e, decompress_limited) (check_inflation-whole r body o t u f)

as_protocol_error-ok :
    (r : Result Bytes) (body : Bytes) → (as_protocol_error r ≡ ok body) ↔ (r ≡ ok body)
as_protocol_error-ok (ok b) body = (λ h. h, λ h. h)
as_protocol_error-ok (err zlib_error) body = (λ h. cc, λ h. cc)
as_protocol_error-ok (err decompress_limit) body = (λ h. cc, λ h. cc)
as_protocol_error-ok (err _) body = (λ h. cc, λ h. cc)

-- The body that a header promises: the bytes themselves where the two sizes are equal, else what
-- they inflate to.
abbrev pub Carries : Zlib → FrameHeader → Bytes → Bytes → Type 0
Carries zlib header raw body =
    ((header.zipsize ≡ header.unzipsize) × (body ≡ raw))
    ⊎ ((header.zipsize ≢ header.unzipsize) × InflatesTo zlib raw max_frame_unzipped_bytes body)

-- The body before its length is checked.
abbrev sized : Zlib → FrameHeader → Bytes → Result Bytes
sized zlib header raw =
    if header.zipsize == header.unzipsize
    then ok raw
    else as_protocol_error (decompress_limited zlib raw max_frame_unzipped_bytes)

sized-Carries :
    (zlib : Zlib) (header : FrameHeader) (raw body : Bytes)
    → (sized zlib header raw ≡ ok body) ↔ Carries zlib header raw body
sized-Carries zlib header raw body = elim (Bool-cases (header.zipsize == header.unzipsize)) [
  | inl same ↦
      let e = (==_iff _ _).0 same in
      rw same (λ h. inl (e, cc), λ c. elim c [ inl (_, b) ↦ cc | inr (ne, _) ↦ absurd (ne e) ])
  | inr differ ↦
      let ne : header.zipsize ≢ header.unzipsize = ground arith in
      let inflated = decompress_limited-InflatesTo zlib raw max_frame_unzipped_bytes body in
      let unwrapped =
        as_protocol_error-ok (decompress_limited zlib raw max_frame_unzipped_bytes) body in
      rw differ (
        λ h. inr (ne, inflated.0 (unwrapped.0 h)),
        λ c. elim c [ inl (e, _) ↦ absurd (ne e) | inr (_, i) ↦ unwrapped.1 (inflated.1 i) ],
      )
]

checked_length :
    (m : Result Bytes) (n : ℕ) (body : Bytes)
    → ((m >>= λ b. raise_if (not (length b == n)) protocol_error >> ok b) ≡ ok body)
      ↔ ((m ≡ ok body) × (length body ≡ n))
checked_length (err e) n body = (λ h. cc, λ h. cc)
checked_length (ok b) n body = (ground arith, back)
  where
    back :
        (◌≡◌ {A = Result Bytes} (ok b) (ok body)) × (length body ≡ n)
        → (ok b >>= λ c. raise_if (not (length c == n)) protocol_error >> ok c) ≡ ok body
    back (e, l) =
        let same : b ≡ body = cc in
        let sized_so : length b ≡ n = rw same l in rw ((==_iff (length b) n).1 sized_so) e

checked_raw :
    (b : Bool) (m : Result Bytes) (body : Bytes)
    → ((raise_if (not b) protocol_error >> m) ≡ ok body) ↔ ((b ≡ true) × (m ≡ ok body))
checked_raw true m body = (λ h. (refl, h), λ h. h.1)
checked_raw false m body = (λ h. cc, λ h. cc)

-- The body is returned exactly when the bytes are as many as the header says, they carry that
-- body, and it is as long as the header says.
pub decompress_body_iff :
    (zlib : Zlib) (header : FrameHeader) (raw body : Bytes)
    → (decompress_body zlib header raw ≡ ok body) ↔ (
        (length raw ≡ header.zipsize)
        × Carries zlib header raw body
        × (length body ≡ header.unzipsize))
unfolding decompress_body
decompress_body_iff zlib header raw body = (forth, back)
  where
    rest : Result Bytes
    rest = sized zlib header raw >>= λ b.
        raise_if (not (length b == header.unzipsize)) protocol_error >> ok b

    raw_law :
        ((raise_if (not (length raw == header.zipsize)) protocol_error >> rest) ≡ ok body)
        ↔ (((length raw == header.zipsize) ≡ true) × (rest ≡ ok body))
    raw_law = checked_raw (length raw == header.zipsize) rest body

    body_law :
        (rest ≡ ok body) ↔ ((sized zlib header raw ≡ ok body) × (length body ≡ header.unzipsize))
    body_law = checked_length (sized zlib header raw) header.unzipsize body

    forth :
        decompress_body zlib header raw ≡ ok body
        → (length raw ≡ header.zipsize)
          × Carries zlib header raw body
          × (length body ≡ header.unzipsize)
    forth h =
        let (l, r) = raw_law.0 h in
        let (c, n) = body_law.0 r in ((==_iff _ _).0 l, (sized-Carries zlib header raw body).0 c, n)

    back :
        (length raw ≡ header.zipsize)
          × Carries zlib header raw body
          × (length body ≡ header.unzipsize)
        → decompress_body zlib header raw ≡ ok body
    back (l, c, n) =
        raw_law.1 ((==_iff _ _).1 l, body_law.1 ((sized-Carries zlib header raw body).1 c, n))

-- The error, if any, is a `ProtocolError`.
abbrev FailsByProtocol : Result Bytes → Type 0
FailsByProtocol (ok body) = Unit
FailsByProtocol (err e) = e ≡ protocol_error

check_inflation-FailsByProtocol :
    (r : Inflation) → FailsByProtocol (as_protocol_error (check_inflation r))
check_inflation-FailsByProtocol r = ground arith

inflated-FailsByProtocol :
    (zlib : Zlib) (raw : Bytes) (limit : ℕ)
    → FailsByProtocol (as_protocol_error (decompress_limited zlib raw limit))
unfolding decompress_limited
inflated-FailsByProtocol zlib raw limit = elim (Option-cases (zlib.inflate raw limit)) [
  | inl corrupt ↦ rw (corrupt, decompress_limited) refl
  | inr (r, e) ↦ rw (e, decompress_limited) (check_inflation-FailsByProtocol r)
]

checked-FailsByProtocol :
    (m : Result Bytes) (n : ℕ)
    → FailsByProtocol m
    → FailsByProtocol (m >>= λ b. raise_if (not (length b == n)) protocol_error >> ok b)
checked-FailsByProtocol (ok b) n h = ground arith
checked-FailsByProtocol (err e) n h = h

sized-FailsByProtocol :
    (zlib : Zlib) (header : FrameHeader) (raw : Bytes) → FailsByProtocol (sized zlib header raw)
sized-FailsByProtocol zlib header raw = elim (Bool-cases (header.zipsize == header.unzipsize)) [
  | inl same ↦ rw same tt
  | inr differ ↦ rw differ (inflated-FailsByProtocol zlib raw max_frame_unzipped_bytes)
]

-- Whatever goes wrong, a bad length, a corrupt or cut stream, or an output past the limit, the
-- caller sees a `ProtocolError` and no exception of zlib.
pub decompress_body_error :
    (zlib : Zlib) (header : FrameHeader) (raw : Bytes) (e : Error)
    → decompress_body zlib header raw ≡ err e
    → e ≡ protocol_error
unfolding decompress_body
decompress_body_error zlib header raw e h = elim (Bool-cases (length raw == header.zipsize)) [
  | inl whole ↦ rw (rw (whole, decompress_body) at h) at (
      checked-FailsByProtocol (sized zlib header raw) header.unzipsize
        (sized-FailsByProtocol zlib header raw))
  | inr partial ↦ ground (arith, rw (partial, decompress_body) at h)
]
