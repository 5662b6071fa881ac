-- ===== src/Offline/Append/Reading.antt =====
-- Reading a file of records back after `append`.
use eltdx.Base.{
  ℕ, ◌+◌, ◌-◌, ◌*◌, ◌/◌, ◌%◌, ◌<◌, ◌≡◌, refl, ap, sym, ◌∙◌, Bool, false, List, [], ◌∷◌, ◌++◌,
  length, length-append, map, Option, some, Result, ok, ltb, lt→ltb, le→ltb, arith, append-nil,
}
use eltdx.Wire.{Bytes}
use eltdx.Wire.Records.{
  records-concat, concat, AllSized, length-concat, split_records, slice-append,
}
use eltdx.Offline.Append.{
  File, fmt_size, whole_records, append, ensure_aligned_for_append, last_record, new_bars,
}
use eltdx.Offline.Append.Laws.{Encoded, append-Holds, append_aligned}

-- An aligned file is a row of whole records.
pub aligned-records :
    (content : Bytes)
    → ensure_aligned_for_append (some content) fmt_size ≡ ok tt
    → (rs : List Bytes) × (concat rs ≡ content) × AllSized fmt_size rs
unfolding ensure_aligned_for_append
aligned-records content h =
    let (rs, joined, sized, count) =
      split_records fmt_size (length content / 32) content (omega (arith, even)) in
    (rs, joined, sized)
  where
    even : length content % 32 ≡ 0
    even = ground arith

-- A rest that is shorter than a record is not read, and every record in front of it is.
pub whole_records-concat {ℓ} :
    {A : Type ℓ} (f : Bytes → A) (rs : List Bytes) (rest : Bytes)
    → AllSized fmt_size rs
    → length rest < fmt_size
    → whole_records f (concat rs ++ rest) ≡ map f rs
unfolding whole_records
whole_records-concat f [] rest h short = rw (lt→ltb _ _ short) refl
whole_records-concat f (r ∷ rs) rest h short =
    rw (enough, rounds) (records-concat fmt_size f [] (r ∷ rs) rest 0 h refl)
  where
    size_all : length (concat (r ∷ rs) ++ rest) ≡ length rs * 32 + 32 + length rest
    size_all = omega (arith, length-append (concat (r ∷ rs)) rest, length-concat 32 (r ∷ rs) h)

    enough : ltb (length (concat (r ∷ rs) ++ rest)) fmt_size ≡ false
    enough = le→ltb _ _ (omega (arith, size_all))

    rounds : (length (concat (r ∷ rs) ++ rest) - fmt_size) / fmt_size + 1 ≡ length (r ∷ rs)
    rounds = omega (arith, size_all, short)

whole_records-joined {ℓ} :
    {A : Type ℓ} (f : Bytes → A) (content : Bytes) (rs : List Bytes)
    → AllSized fmt_size rs
    → content ≡ concat rs
    → whole_records f content ≡ map f rs
whole_records-joined f content rs h e =
    ap (whole_records f) (e ∙ sym (append-nil (concat rs)))
    ∙ whole_records-concat f rs [] h (omega arith)

-- The last record of a row of records is found where it was written.
pub last_record-Holds :
    (rs : List Bytes) (r : Bytes)
    → AllSized fmt_size rs
    → length r ≡ fmt_size
    → last_record (some (concat rs ++ (r ++ []))) fmt_size ≡ some r
unfolding last_record
last_record-Holds rs r h hr = rw (enough, start) (ap some (slice-append (concat rs) r [] 32 hr))
  where
    size_all : length (concat rs ++ (r ++ [])) ≡ length rs * 32 + 32
    size_all =
        omega (
          arith,
          length-append (concat rs) (r ++ []),
          length-append r [],
          length-concat 32 rs h,
          hr,
        )

    enough : ltb (length (concat rs ++ (r ++ []))) fmt_size ≡ false
    enough = le→ltb _ _ (omega (arith, size_all))

    start :
        length (concat rs ++ (r ++ [])) - length (concat rs ++ (r ++ [])) % fmt_size - fmt_size
        ≡ length (concat rs)
    start = omega (arith, size_all, length-concat 32 rs h)

map-append {ℓ ℓ'} :
    {A : Type ℓ} {B : Type ℓ'} (f : A → B) (xs ys : List A)
    → map f (xs ++ ys) ≡ map f xs ++ map f ys
map-append f [] ys = refl
map-append f (x ∷ xs) ys = ap (◌∷◌ (f x)) (map-append f xs ys)

module _ {Bar Key : Type 0} (encode : Bar → Result Bytes) (newer : Key → Bar → Bool)
    (sized : (bar : Bar) (bs : Bytes) → encode bar ≡ ok bs → length bs ≡ fmt_size)
    (last_key : File → Option Key) where
  -- What a reader sees after a successful append: the records it saw before, then the encodings of
  -- the newer bars.
  pub whole_records-append {ℓ} :
      {A : Type ℓ} (f : Bytes → A) (content content' : Bytes) (bars : List Bar) (n : ℕ)
      → append encode newer last_key fmt_size (some content) bars ≡ ok (n, some content')
      → let fresh = new_bars encode newer (last_key (some content)) bars in
        (ss : List Bytes) × Encoded encode newer fmt_size sized fresh ss
        × (n ≡ length fresh)
        × (whole_records f content' ≡ whole_records f content ++ map f ss)
  whole_records-append f content content' bars n e =
      let (rs, joined, all) =
        aligned-records content
          (append_aligned encode newer fmt_size sized last_key _ _ bars n e) in
      let (ss, each, held, count) =
        append-Holds encode newer fmt_size sized last_key (some content) (some content') bars n rs
          (sym joined, all) e in
      (
        ss,
        each,
        count,
        whole_records-joined f content' (rs ++ ss) held.1 held.0
            ∙ map-append f rs ss
            ∙ ap (λ seen. seen ++ map f ss)
                (sym (whole_records-joined f content rs all (sym joined))),
      )
