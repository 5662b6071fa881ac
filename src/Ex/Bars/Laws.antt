-- ===== src/Ex/Bars/Laws.antt =====
-- The bars that a response gives, whole or cut off.
use eltdx.Base.{
  ℕ, suc, ◌+◌, ◌^◌, ◌<◌, ◌≡◌, refl, sym, ap, ◌∙◌, true, false, List, [], ◌∷◌, ◌++◌, length,
  length-append, append_assoc, Result, ok, err, protocol_error, ltb, lt→ltb, le→ltb, if◌then◌else◌,
  arith, Bool-cases, inl, inr, ltb→lt, ltb→le,
}
use eltdx.Wire.{Bytes, slice, le_bytes, length-le_bytes, u16_round}
use eltdx.Wire.Records.{concat, AllSized, regroup, next_offset, slice-append}
use eltdx.Wire.Inside.{slice-within}
use eltdx.Ex.Range.{ExInstrumentBar}
use eltdx.Ex.Bars.{moment_of, get_datetime, bar_of, bars_loop, parse_bars, bars_behind}

-- A response whose header announces `n` bars.
abbrev pub announced : Bytes → ℕ → List Bytes → Bytes → Bytes
announced front n rs tail = (front ++ le_bytes 2 n) ++ (concat rs ++ tail)

module _ {Float : Type 0} (unpack_f : Bytes → Float) (category : ℕ) where
  -- A bar of one record of 32 bytes.
  abbrev pub decode_bar : Bytes → ExInstrumentBar Float
  decode_bar raw = bar_of unpack_f (moment_of category (slice 0 4 raw)) (slice 4 28 raw) raw

  -- What is left of a response after its last whole record: an error where there are fewer bytes
  -- than a date has, and otherwise the end of the list.
  abbrev pub cut_off : Bytes → Result (List (ExInstrumentBar Float))
  cut_off tail = if ltb (length tail) 4 then err protocol_error else ok []

  abbrev pub after_bars :
      List Bytes → Result (List (ExInstrumentBar Float)) → Result (List (ExInstrumentBar Float))
  after_bars [] end = end
  after_bars (r ∷ rs) end = bars_behind (decode_bar r) (after_bars rs end)

  loop_tail :
      (before tail : Bytes) (n : ℕ)
      → length tail < 32
      → bars_loop unpack_f category (suc n) (length before) (before ++ tail) ≡ cut_off tail
  unfolding bars_loop get_datetime
  loop_tail before tail n short = elim (Bool-cases (ltb (length tail) 4)) [
    | inl none_left ↦
        let ends : ltb (length (before ++ tail)) (length before + 4) ≡ true =
          lt→ltb _ _ (omega (arith, length-append before tail, ltb→lt _ _ none_left)) in
        rw none_left (rw ends refl)
    | inr dated ↦
        let goes : ltb (length (before ++ tail)) (length before + 4) ≡ false =
          le→ltb _ _ (omega (arith, length-append before tail, ltb→le _ _ dated)) in
        let ends : ltb (length (before ++ tail)) (length before + 4 + 28) ≡ true =
          lt→ltb _ _ (omega (arith, length-append before tail, short)) in
        rw dated (rw goes (rw ends refl))
  ]

  loop_step :
      (before r rest : Bytes) (n : ℕ)
      → length r ≡ 32
      → bars_loop unpack_f category (suc n) (length before) (before ++ (r ++ rest))
        ≡ bars_behind
            (decode_bar r)
            (bars_loop unpack_f category n (length before + 32) (before ++ (r ++ rest)))
  unfolding bars_loop get_datetime
  loop_step before r rest n sized =
      let size = length-append before (r ++ rest) in
      let size' = length-append r rest in
      let dated : ltb (length (before ++ (r ++ rest))) (length before + 4) ≡ false =
        le→ltb _ _ (omega (arith, size, size', sized)) in
      let whole : ltb (length (before ++ (r ++ rest))) (length before + 4 + 28) ≡ false =
        le→ltb _ _ (omega (arith, size, size', sized)) in
      let at : length before ≡ length before + 0 = omega arith in
      let date : slice (length before) 4 (before ++ (r ++ rest)) ≡ slice 0 4 r =
        ap (λ k. slice k 4 (before ++ (r ++ rest))) at
        ∙ slice-within before r rest 0 4 (omega (arith, sized)) in
      let fields : slice (length before + 4) 28 (before ++ (r ++ rest)) ≡ slice 4 28 r =
        slice-within before r rest 4 28 (omega (arith, sized)) in
      let raw : slice (length before) 32 (before ++ (r ++ rest)) ≡ r =
        slice-append before r rest 32 sized in
      rw dated (rw whole (rw date (rw fields (rw raw refl))))

  loop_bars :
      (before : Bytes) (rs : List Bytes) (tail : Bytes) (at n : ℕ)
      → AllSized 32 rs
      → length tail < 32
      → at ≡ length before
      → bars_loop unpack_f category (length rs + suc n) at (before ++ (concat rs ++ tail))
        ≡ after_bars rs (cut_off tail)
  loop_bars before [] tail at n sized short here =
      let rounds : 0 + suc n ≡ suc n = omega arith in
      rw here (rw rounds (loop_tail before tail n short))
  loop_bars before (r ∷ rs) tail at n sized short here =
      let rounds : suc (length rs) + suc n ≡ suc (length rs + suc n) = omega arith in
      rw here (
        rw rounds (
          rw (append_assoc r (concat rs) tail) (
            loop_step before r (concat rs ++ tail) (length rs + suc n) sized.0
            ∙ ap (bars_behind (decode_bar r)) (
                rw (← append_assoc r (concat rs) tail) (
                  rw (regroup before r rs tail) (
                    loop_bars (before ++ r) rs tail (length before + 32) n sized.1 short
                      (next_offset before r 32 (length before) sized.0 refl)))))))

  -- A response that announces more bars than it has: after whole records of 32 bytes, fewer than 32
  -- bytes are left. The whole records are given, but where fewer than four bytes are left after them
  -- the date of the next bar is not there and a `ProtocolError` is raised.
  pub parse_bars_cut :
      (front : Bytes) (rs : List Bytes) (tail : Bytes) (n : ℕ)
      → length front ≡ 18
      → length rs + suc n < 2 ^ 16
      → AllSized 32 rs
      → length tail < 32
      → parse_bars unpack_f category (announced front (length rs + suc n) rs tail)
        ≡ after_bars rs (cut_off tail)
  unfolding parse_bars
  parse_bars_cut front rs tail n eighteen few sized short =
      let number = le_bytes 2 (length rs + suc n) in
      let body = announced front (length rs + suc n) rs tail in
      let before : length (front ++ number) ≡ 20 =
        omega
          (arith, length-append front number, length-le_bytes 2 (length rs + suc n), eighteen) in
      let long : ltb (length body) 20 ≡ false =
        le→ltb _ _ (omega (arith, before, length-append (front ++ number) (concat rs ++ tail))) in
      let read : slice 18 2 body ≡ number = rw (← eighteen) (
        rw (append_assoc front number (concat rs ++ tail)) (
          slice-append front number (concat rs ++ tail) 2
            (length-le_bytes 2 (length rs + suc n)))) in
      rw long (
        rw read (
          rw (u16_round (length rs + suc n) few)
            (loop_bars (front ++ number) rs tail 20 n sized short (sym before))))
