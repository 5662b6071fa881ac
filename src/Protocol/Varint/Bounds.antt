-- ===== src/Protocol/Varint/Bounds.antt =====
-- Where `consume_varint` stops, and what it looks at.
use eltdx.Base.{
  ℕ, suc, ◌+◌, ◌*◌, ◌/◌, ◌%◌, ◌^◌, ◌<◌, ◌≤◌, ◌≡◌, refl, false, [], ◌∷◌, ◌++◌, drop, length,
  length-append, length-drop, leb, ◌==◌, if◌then◌else◌, Result, ok, err, ◌>>=◌, arith, Bool-cases,
  inl, inr, protocol_error, List, zero,
}
use eltdx.Base.Int.{ℤ, pos, neg_ℕ}
use eltdx.Wire.{Bytes}
use eltdx.Protocol.Varint.{varint_tail, varint_at, consume_varint}

-- The result of a read that began at `start`, with `size` bytes left: it ends past the start and
-- within the bytes, and `again`, the same read with more bytes behind, gives the same.
abbrev Stops : {A : Type 0} → ℕ → ℕ → Result (A × ℕ) → Result (A × ℕ) → Type 0
Stops start size (ok (a, q)) again = (start < q) × (q ≤ start + size) × (again ≡ ok (a, q))
Stops start size (err e) again = Unit

varint_tail-Stops :
    (bs more : Bytes) (position shift value : ℕ)
    → Stops position
        (length bs)
        (varint_tail bs position shift value)
        (varint_tail (bs ++ more) position shift value)
unfolding varint_tail
varint_tail-Stops [] more position shift value = tt
varint_tail-Stops (byte ∷ bs) more position shift value = elim (Bool-cases (byte / 128 % 2 == 0)) [
  | inl stop ↦ rw stop (omega arith, omega arith, refl)
  | inr next ↦ rw next (
      later _ _
        (varint_tail-Stops bs more (position + 1) (shift + 7) (value + (byte % 128) * 2 ^ shift)))
]
  where
    later :
        (r again : Result (ℕ × ℕ))
        → Stops (position + 1) (length bs) r again
        → Stops position (suc (length bs)) r again
    later (ok (a, q)) again (lo, hi, e) = (omega arith, omega arith, e)
    later (err e) again h = tt

varint_at-Stops :
    (bs more : Bytes) (offset : ℕ)
    → Stops offset (length bs) (varint_at bs offset) (varint_at (bs ++ more) offset)
unfolding varint_at
varint_at-Stops [] more offset = tt
varint_at-Stops (byte ∷ bs) more offset = elim (Bool-cases (byte / 128 % 2 == 0)) [
  | inl stop ↦ rw stop (omega arith, omega arith, refl)
  | inr next ↦ rw next (bound _ _ (varint_tail-Stops bs more (offset + 1) 6 (byte % 64)))
]
  where
    finish : ℕ × ℕ → Result (ℤ × ℕ)
    finish (value, position) = ok (if byte / 64 % 2 == 0 then pos value else neg_ℕ value, position)

    bound :
        (r again : Result (ℕ × ℕ))
        → Stops (offset + 1) (length bs) r again
        → Stops offset (suc (length bs)) (r >>= finish) (again >>= finish)
    bound (ok (a, q)) again (lo, hi, e) = (omega arith, omega arith, rw e refl)
    bound (err e) again h = tt

drop-append_le {ℓ} :
    {A : Type ℓ} (n : ℕ) (xs ys : List A) → n ≤ length xs → drop n (xs ++ ys) ≡ drop n xs ++ ys
drop-append_le zero xs ys h = refl
drop-append_le (suc n) [] ys h = absurd (omega arith)
drop-append_le (suc n) (x ∷ xs) ys h = drop-append_le n xs ys (omega arith)

-- A read that succeeds moves forward, stays within the payload, and depends on no byte behind the
-- number: with more bytes appended it gives the same.
pub consume_varint_bounds :
    (payload more : Bytes) (offset position : ℕ) (n : ℤ)
    → consume_varint payload offset ≡ ok (n, position)
    → (offset < position)
      × (position ≤ length payload)
      × (consume_varint (payload ++ more) offset ≡ ok (n, position))
unfolding consume_varint
consume_varint_bounds payload more offset position n h =
    elim (Bool-cases (leb (length payload) offset)) [
      | inl past ↦ absurd (refused (rw past at h))
      | inr inside ↦
          let below : offset < length payload = ground arith in
          let still : leb (length (payload ++ more)) offset ≡ false =
            rw (length-append payload more) (ground arith) in
          let at_h : varint_at (drop offset payload) offset ≡ ok (n, position) = rw inside at h in
          let (lo, hi, e) = rw at_h at (varint_at-Stops (drop offset payload) more offset) in
          (
            lo,
            omega (arith, length-drop offset payload),
            rw (still, drop-append_le offset payload more (omega arith)) e,
          )
    ]
  where
    refused : ◌≡◌ {A = Result (ℤ × ℕ)} (err protocol_error) (ok (n, position)) → ⊥
    refused e = cc
