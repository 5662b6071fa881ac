-- ===== src/Offline/Append/Laws.antt =====
-- What `append` does to a file of records.
use eltdx.Base.{
  ℕ, suc, ◌%◌, ◌<◌, ◌≡◌, ◌≢◌, refl, ap, sym, ◌∙◌, Bool, false, List, [], ◌∷◌, ◌++◌, length,
  All-append, Option, none, some, Result, ok, err, >>=-eq-ok, resource_format_error, ◌==◌, arith,
  append-nil,
}
use eltdx.Wire.{Bytes}
use eltdx.Wire.Records.{concat, AllSized, concat-append}
use eltdx.Offline.Append.{
  File, ensure_aligned_for_append, write_behind, new_bars, encode_all, write_new, append,
}

-- A file that holds exactly these records; no file holds none.
abbrev pub Holds : ℕ → File → List Bytes → Type 0
Holds size none rs = rs ≡ []
Holds size (some content) rs = (content ≡ concat rs) × AllSized size rs

module _ {Bar Key : Type 0} (encode : Bar → Result Bytes) (newer : Key → Bar → Bool) (size : ℕ)
    (sized : (bar : Bar) (bs : Bytes) → encode bar ≡ ok bs → length bs ≡ size) where
  -- `rs` are the encodings of `bars`, one by one.
  pub data Encoded : List Bar → List Bytes → Type 0 where
    none_left : Encoded [] []
    one_more :
        {bar : Bar} {bs : Bytes} {bars : List Bar} {rs : List Bytes}
        → encode bar ≡ ok bs
        → Encoded bars rs
        → Encoded (bar ∷ bars) (bs ∷ rs)

  encode_all-Encoded :
      (bars : List Bar) (bytes : Bytes)
      → encode_all encode newer bars ≡ ok bytes
      → (rs : List Bytes) × Encoded bars rs
        × (bytes ≡ concat rs)
        × AllSized size rs
        × (length rs ≡ length bars)
  encode_all-Encoded [] bytes h = ([], none_left, ground arith, tt, refl)
  encode_all-Encoded (bar ∷ bars) bytes h =
      let (bs, e, later) = >>=-eq-ok (encode bar) _ h in
      let (more, e', done) = >>=-eq-ok (encode_all encode newer bars) _ later in
      let (rs, encoded, joined, all, count) = encode_all-Encoded bars more e' in
      let whole : bs ++ more ≡ bytes = ground arith in
      (
        bs ∷ rs,
        one_more e encoded,
        sym whole ∙ ap (◌++◌ bs) joined,
        (sized bar bs e, all),
        ap suc count,
      )

  write_behind-Holds :
      (file : File) (rs ss : List Bytes)
      → Holds size file rs
      → AllSized size ss
      → Holds size (write_behind file (concat ss)) (rs ++ ss)
  write_behind-Holds none rs ss h all = rw h (refl, all)
  write_behind-Holds (some content) rs ss h all =
      (rw h.0 (sym (concat-append rs ss)), All-append (λ r. length r ≡ size) rs ss h.1 all)

  write_new-Holds :
      (file file' : File) (bars : List Bar) (n : ℕ) (rs : List Bytes)
      → Holds size file rs
      → write_new encode newer file bars ≡ ok (n, file')
      → (ss : List Bytes) × Encoded bars ss × Holds size file' (rs ++ ss) × (n ≡ length bars)
  unfolding write_new
  write_new-Holds file file' [] n rs h e =
      let same : file ≡ file' = ground arith in
      ([], none_left, rw (← same) (rw append-nil h), ground arith)
  write_new-Holds file file' (bar ∷ bars) n rs h e =
      let (bytes, encoded, done) = >>=-eq-ok (encode_all encode newer (bar ∷ bars)) _ e in
      let (ss, each, joined, all, count) = encode_all-Encoded (bar ∷ bars) bytes encoded in
      let same : write_behind file bytes ≡ file' = ground arith in
      (ss, each, rw (← same) (rw joined (write_behind-Holds file rs ss h all)), ground arith)

  module _ (last_key : File → Option Key) where
    -- A successful append puts the encodings of exactly the newer bars behind the records that
    -- were there, and counts them.
    pub append-Holds :
        (file file' : File) (bars : List Bar) (n : ℕ) (rs : List Bytes)
        → Holds size file rs
        → append encode newer last_key size file bars ≡ ok (n, file')
        → let fresh = new_bars encode newer (last_key file) bars in
          (ss : List Bytes) × Encoded fresh ss × Holds size file' (rs ++ ss) × (n ≡ length fresh)
    unfolding append
    append-Holds file file' bars n rs h e =
        let (u, aligned, written) = >>=-eq-ok (ensure_aligned_for_append file size) _ e in
        write_new-Holds file file' _ n rs h written

    -- Only an aligned file is appended to.
    pub append_aligned :
        (file file' : File) (bars : List Bar) (n : ℕ)
        → append encode newer last_key size file bars ≡ ok (n, file')
        → ensure_aligned_for_append file size ≡ ok tt
    unfolding append
    append_aligned file file' bars n e = (>>=-eq-ok (ensure_aligned_for_append file size) _ e).1

    -- A file that ends in a part of a record is refused, whatever the bars are.
    append_misaligned :
        (content : Bytes) (bars : List Bar)
        → 0 < size
        → length content % size ≢ 0
        → append encode newer last_key size (some content) bars ≡ err resource_format_error
    unfolding append ensure_aligned_for_append
    append_misaligned content bars pos part = rw (positive, uneven) refl
      where
        positive : (size == 0) ≡ false
        positive = ground arith

        uneven : (length content % size == 0) ≡ false
        uneven = ground arith
