-- ===== src/Offline/Append/Again.antt =====
-- Appending the same bars a second time.
use eltdx.Base.{
  ℕ, ◌*◌, ◌%◌, ◌≡◌, ◌⊎◌, refl, ap, sym, ◌∙◌, Bool, true, false, List, [], ◌∷◌, ◌++◌, length, Option,
  none, some, Result, ok, ◌==◌, arith, append_assoc, Bool-cases, inl, inr, All,
}
use eltdx.Wire.{Bytes}
use eltdx.Wire.Records.{AllSized, concat-append, length-concat}
use eltdx.Offline.Append.{
  File, fmt_size, append, ensure_aligned_for_append, last_record, newer_bars, new_bars,
}
use eltdx.Offline.Append.Laws.{Holds, Encoded, append-Holds, append_aligned}
use eltdx.Offline.Append.Laws.Encoded.{none_left, one_more}
use eltdx.Offline.Append.Reading.{aligned-records, last_record-Holds}

AllSized-last :
    (rs : List Bytes) (r : Bytes)
    → AllSized fmt_size (rs ++ r ∷ [])
    → AllSized fmt_size rs × (length r ≡ fmt_size)
AllSized-last [] r h = (tt, h.0)
AllSized-last (r' ∷ rs) r h = let (all, last) = AllSized-last rs r h.1 in ((h.0, all), last)

last_record-last :
    (content : Bytes) (rs : List Bytes) (r : Bytes)
    → Holds fmt_size (some content) (rs ++ r ∷ [])
    → last_record (some content) fmt_size ≡ some r
last_record-last content rs r h =
    let (all, last) = AllSized-last rs r h.1 in
    rw (h.0, concat-append rs (r ∷ [])) (last_record-Holds rs r all last)

Holds-aligned :
    (content : Bytes) (rs : List Bytes)
    → Holds fmt_size (some content) rs
    → ensure_aligned_for_append (some content) fmt_size ≡ ok tt
unfolding ensure_aligned_for_append
Holds-aligned content rs h = rw even refl
  where
    whole : length content ≡ length rs * 32
    whole = ap length h.0 ∙ length-concat 32 rs h.1

    even : (length content % 32 == 0) ≡ true
    even = ground (arith, whole)

module _ {Bar Key : Type 0} (encode : Bar → Result Bytes) (newer : Key → Bar → Bool)
    (sized : (bar : Bar) (bs : Bytes) → encode bar ≡ ok bs → length bs ≡ fmt_size) where
  newer_bars-none :
      (k : Key) (bars : List Bar)
      → All (λ b. newer k b ≡ false) bars
      → newer_bars encode newer k bars ≡ []
  newer_bars-none k [] h = refl
  newer_bars-none k (b ∷ bars) h = rw h.0 (newer_bars-none k bars h.1)

  newer_bars-last :
      (k : Key) (bars : List Bar) (l : Bar)
      → newer k l ≡ true
      → newer_bars encode newer k (bars ++ l ∷ []) ≡ newer_bars encode newer k bars ++ l ∷ []
  newer_bars-last k [] l h = rw h refl
  newer_bars-last k (b ∷ bars) l h = elim (Bool-cases (newer k b)) [
    | inl newer_bar ↦ rw newer_bar (ap (◌∷◌ b) (newer_bars-last k bars l h))
    | inr older ↦ rw older (newer_bars-last k bars l h)
  ]

  Encoded-last :
      (bars : List Bar) (l : Bar) (ss : List Bytes)
      → Encoded encode newer fmt_size sized (bars ++ l ∷ []) ss
      → (rs : List Bytes) × (r : Bytes) × (ss ≡ rs ++ r ∷ []) × (encode l ≡ ok r)
  Encoded-last [] l ss (one_more {bs = r} e none_left) = ([], r, refl, e)
  Encoded-last (b ∷ bars) l ss (one_more {bs = bs} {rs = rs'} e more) =
      let (rs, r, same, done) = Encoded-last bars l rs' more in (bs ∷ rs, r, ap (◌∷◌ bs) same, done)

  -- The bars that are new, where the last of them is the newest: none or the last among them.
  new_bars-last :
      (k : Option Key) (bars : List Bar) (l : Bar)
      → ((last : Key) → newer last l ≡ false → All (λ b. newer last b ≡ false) (bars ++ l ∷ []))
      → (new_bars encode newer k (bars ++ l ∷ []) ≡ [])
        ⊎ ((some_bars : List Bar) × (new_bars encode newer k (bars ++ l ∷ [])
              ≡ some_bars ++ l ∷ []))
  new_bars-last none bars l h = inr (bars, refl)
  new_bars-last (some last) bars l h = elim (Bool-cases (newer last l)) [
    | inl newest ↦ inr (_, newer_bars-last last bars l newest)
    | inr older ↦ inl (newer_bars-none last _ (h last older))
  ]

  module _ (last_key : File → Option Key) (read_key : Bytes → Key) (key : Bar → Key)
      (keyed : (content r : Bytes)
        → last_record (some content) fmt_size ≡ some r
        → last_key (some content) ≡ some (read_key r))
      (key_kept : (bar : Bar) (bs : Bytes) → encode bar ≡ ok bs → read_key bs ≡ key bar) where
    append_none_new :
        (content : Bytes) (bars : List Bar)
        → ensure_aligned_for_append (some content) fmt_size ≡ ok tt
        → new_bars encode newer (last_key (some content)) bars ≡ []
        → append encode newer last_key fmt_size (some content) bars ≡ ok (0, some content)
    unfolding append
    append_none_new content bars aligned h = rw (aligned, h) refl

    -- Bars whose last is the newest are not written twice: to append them again writes nothing.
    pub append_again :
        (content content' : Bytes) (bars : List Bar) (l : Bar) (n : ℕ)
        → All (λ b. newer (key l) b ≡ false) (bars ++ l ∷ [])
        → ((last : Key) → newer last l ≡ false → All (λ b. newer last b ≡ false) (bars ++ l ∷ []))
        → append encode newer last_key fmt_size (some content) (bars ++ l ∷ [])
          ≡ ok (n, some content')
        → append encode newer last_key fmt_size (some content') (bars ++ l ∷ [])
          ≡ ok (0, some content')
    append_again content content' bars l n newest ordered h =
        let aligned = append_aligned encode newer fmt_size sized last_key _ _ _ n h in
        elim (new_bars-last (last_key (some content)) bars l ordered) [
          | inl nothing ↦
              let same : content ≡ content' =
                unchanged content content' n (append_none_new content _ aligned nothing) h in
              rw (← same) (append_none_new content _ aligned nothing)
          | inr (fresh, e) ↦
              let (rs, joined, all) = aligned-records content aligned in
              let (ss, each, held, count) =
                append-Holds encode newer fmt_size sized last_key (some content) (some content') _ n
                  rs (sym joined, all) h in
              let (ss', r, split, encoded) = Encoded-last fresh l ss (rw (← e) each) in
              let last : last_record (some content') fmt_size ≡ some r =
                last_record-last content' (rs ++ ss') r
                  (rw (append_assoc rs ss' (r ∷ []), ← split) held) in
              append_none_new content' _ (Holds-aligned content' _ held) (
                rw (keyed content' r last, key_kept l r encoded) (newer_bars-none (key l) _ newest))
        ]
      where
        unchanged :
            (content content' : Bytes) (n : ℕ) {x : Result (ℕ × File)}
            → x ≡ ok (0, some content)
            → x ≡ ok (n, some content')
            → content ≡ content'
        unchanged content content' n h h' = cc
