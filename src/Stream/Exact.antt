-- ===== src/Stream/Exact.antt =====
-- `_recv_exact` depends on the bytes of the stream alone, not on how they were cut into pieces.
use eltdx.Base.{
  ℕ, zero, suc, ◌+◌, ◌-◌, ◌<◌, ◌≤◌, ◌≡◌, refl, ap, sym, ◌∙◌, false, List, [], ◌∷◌, ◌++◌, take, drop,
  length, length-append, length-take, length-drop, leb, lt→ltb, le→ltb, leb→le, Bool-cases, inl,
  inr, append_assoc, append-nil, Result, Error, ok, arith,
}
use eltdx.Wire.{Bytes}
use eltdx.Stream.{Event, piece, timeout, reset, recv_loop, recv_exact, recv_event}

-- The bytes that arrive before the first timeout, error or end of the stream.
abbrev pub bytes_of : List Event → Bytes
bytes_of [] = []
bytes_of (piece [] ∷ es) = []
bytes_of (piece (b ∷ bs) ∷ es) = (b ∷ bs) ++ bytes_of es
bytes_of (timeout ∷ es) = []
bytes_of (reset ∷ es) = []

module _ {ℓ} {A : Type ℓ} where
  take-append_ge :
      (k : ℕ) (xs ys : List A) → length xs ≤ k → take k (xs ++ ys) ≡ xs ++ take (k - length xs) ys
  take-append_ge k [] ys h = let e : k - 0 ≡ k = omega arith in rw e
  take-append_ge zero (x ∷ xs) ys h = absurd (omega arith)
  take-append_ge (suc k) (x ∷ xs) ys h =
      let e : suc k - suc (length xs) ≡ k - length xs = omega arith in
      rw e (ap (◌∷◌ x) (take-append_ge k xs ys (omega arith)))

  drop-append_ge :
      (k : ℕ) (xs ys : List A) → length xs ≤ k → drop k (xs ++ ys) ≡ drop (k - length xs) ys
  drop-append_ge k [] ys h = let e : k - 0 ≡ k = omega arith in rw e
  drop-append_ge zero (x ∷ xs) ys h = absurd (omega arith)
  drop-append_ge (suc k) (x ∷ xs) ys h =
      let e : suc k - suc (length xs) ≡ k - length xs = omega arith in
      rw e (drop-append_ge k xs ys (omega arith))

  take-append_lt : (k : ℕ) (xs ys : List A) → k ≤ length xs → take k (xs ++ ys) ≡ take k xs
  take-append_lt zero xs ys h = refl
  take-append_lt (suc k) [] ys h = absurd (omega arith)
  take-append_lt (suc k) (x ∷ xs) ys h = ap (◌∷◌ x) (take-append_lt k xs ys (omega arith))

  drop-append_lt : (k : ℕ) (xs ys : List A) → k ≤ length xs → drop k (xs ++ ys) ≡ drop k xs ++ ys
  drop-append_lt zero xs ys h = refl
  drop-append_lt (suc k) [] ys h = absurd (omega arith)
  drop-append_lt (suc k) (x ∷ xs) ys h = drop-append_lt k xs ys (omega arith)

joined :
    (buf piece_bytes : Bytes) (k : ℕ) (later : Bytes) (es : List Event)
    → length piece_bytes ≤ k
    → ◌≡◌ {A = Result Bytes × List Event}
        (ok ((buf ++ piece_bytes) ++ take (k - length piece_bytes) later), es)
        (ok (buf ++ take k (piece_bytes ++ later)), es)
joined buf piece_bytes k later es h = rw (take-append_ge k piece_bytes later h, append_assoc) refl

cut :
    (buf piece_bytes : Bytes) (k : ℕ) (later : Bytes) (es : List Event)
    → k ≤ length piece_bytes
    → ◌≡◌ {A = Result Bytes × List Event}
        (ok (buf ++ take k piece_bytes), es)
        (ok (buf ++ take k (piece_bytes ++ later)), es)
cut buf piece_bytes k later es h = rw (take-append_lt k piece_bytes later h) refl

bytes_of-piece :
    (bs : Bytes) (es : List Event) → 0 < length bs → bytes_of (piece bs ∷ es) ≡ bs ++ bytes_of es
bytes_of-piece [] es h = absurd (omega arith)
bytes_of-piece (b ∷ bs) es h = refl

-- What stays of a piece that was longer than the read.
rest_of :
    (k : ℕ) (bs : Bytes) (es : List Event)
    → k < length bs
    → bytes_of (piece (drop k bs) ∷ es) ≡ drop k (bs ++ bytes_of es)
rest_of k bs es h =
    bytes_of-piece (drop k bs) es (omega (arith, length-drop k bs))
    ∙ sym (drop-append_lt k bs (bytes_of es) (omega arith))

leb→lt : (a b : ℕ) → leb a b ≡ false → b < a
leb→lt a b h = ground arith

-- A read of `k` more bytes behind `buf` took them from the front of the stream.
abbrev Reads : Bytes → ℕ → List Event → Result Bytes × List Event → Type 0
Reads buf k es r =
    (es' : List Event) × (r ≡ (ok (buf ++ take k (bytes_of es)), es'))
    × (bytes_of es' ≡ drop k (bytes_of es))

module _ (closed : Error) where
  finished :
      (fuel n : ℕ) (buf : Bytes) (es : List Event)
      → length buf ≡ n
      → recv_loop closed (suc fuel) n buf es ≡ (ok buf, es)
  unfolding recv_loop
  finished fuel n buf es h = rw (le→ltb (length buf) n (omega arith), recv_loop) refl

  finished_at :
      (fuel n : ℕ) (buf : Bytes) (es : List Event)
      → length buf ≡ n
      → 0 < fuel
      → recv_loop closed fuel n buf es ≡ (ok buf, es)
  finished_at zero n buf es h f = absurd (omega arith)
  finished_at (suc fuel) n buf es h f = finished fuel n buf es h

  round :
      (fuel n : ℕ) (buf : Bytes) (es es' : List Event) (b : ℕ) (bs : Bytes)
      → length buf < n
      → recv_event (n - length buf) es ≡ (ok (b ∷ bs), es')
      → recv_loop closed (suc fuel) n buf es ≡ recv_loop closed fuel n (buf ++ (b ∷ bs)) es'
  unfolding recv_loop
  round fuel n buf es es' b bs short r = rw (lt→ltb (length buf) n short, r, recv_loop) refl

  recv_loop-Reads :
      (fuel n k : ℕ) (buf : Bytes) (es : List Event)
      → n ≡ length buf + k
      → k < fuel
      → k ≤ length (bytes_of es)
      → Reads buf k es (recv_loop closed fuel n buf es)
  recv_loop-Reads zero n k buf es e f h = absurd (omega arith)
  recv_loop-Reads (suc fuel) n zero buf es e f h =
      (es, rw (finished fuel n buf es (omega arith), append-nil) refl, refl)
  recv_loop-Reads (suc fuel) n (suc k) buf [] e f h = absurd (omega arith)
  recv_loop-Reads (suc fuel) n (suc k) buf (timeout ∷ es) e f h = absurd (omega arith)
  recv_loop-Reads (suc fuel) n (suc k) buf (reset ∷ es) e f h = absurd (omega arith)
  recv_loop-Reads (suc fuel) n (suc k) buf (piece [] ∷ es) e f h = absurd (omega arith)
  recv_loop-Reads (suc fuel) n (suc k) buf (piece (b ∷ bs) ∷ es) e f h =
      elim (Bool-cases (leb (length (b ∷ bs)) (suc k))) [
        | inl all ↦
            let fits = leb→le _ _ all in
            let asked : n - length buf ≡ suc k = omega arith in
            let step = round fuel n buf _ es b bs (omega arith) (rw (asked, all) refl) in
            let (es', r, left) =
              recv_loop-Reads fuel n (suc k - length (b ∷ bs)) (buf ++ (b ∷ bs)) es
                (omega (arith, length-append buf (b ∷ bs), e)) (omega arith)
                (omega (arith, length-append (b ∷ bs) (bytes_of es))) in
            (
              es',
              step ∙ r ∙ joined buf (b ∷ bs) (suc k) (bytes_of es) es' fits,
              left ∙ sym (drop-append_ge (suc k) (b ∷ bs) (bytes_of es) fits),
            )
        | inr part ↦
            let longer = leb→lt (length (b ∷ bs)) (suc k) part in
            let asked : n - length buf ≡ suc k = omega arith in
            let filled : length (buf ++ take (suc k) (b ∷ bs)) ≡ n =
              omega
                (arith, length-append buf (take (suc k) (b ∷ bs)), length-take (suc k) (b ∷ bs)) in
            let step =
              round fuel n buf _ (piece (drop k bs) ∷ es) b (take k bs) (omega arith)
                (rw (asked, part) refl) in
            let last =
              finished_at fuel n (buf ++ (b ∷ take k bs)) (piece (drop k bs) ∷ es) filled
                (omega arith) in
            (
              piece (drop k bs) ∷ es,
              step ∙ last ∙ cut buf (b ∷ bs) (suc k) (bytes_of es) _ (omega arith),
              rest_of k bs es (omega arith),
            )
      ]

-- If `n` bytes arrive before any timeout, error or end of the stream, `_recv_exact` returns exactly
-- the first `n` of them, however the network cut them into pieces, and leaves exactly the rest.
pub recv_exact-stream :
    (closed : Error) (n : ℕ) (es : List Event)
    → n ≤ length (bytes_of es)
    → (es' : List Event) × (recv_exact closed n es ≡ (ok (take n (bytes_of es)), es'))
      × (bytes_of es' ≡ drop n (bytes_of es))
unfolding recv_exact
recv_exact-stream closed n es h =
    recv_loop-Reads closed (suc n) n n [] es (omega arith) (omega arith) h
