-- ===== src/Protocol/Varint/Encoding.antt =====
-- The number format that `consume_varint` reads, as an encoder, and what the reader makes of it.
use native.Mathlib.Numerals.{towards_suc}
use eltdx.Base.{
  ℕ, zero, suc, ◌+◌, ◌*◌, ◌/◌, ◌%◌, ◌^◌, ◌<◌, ◌≤◌, ◌≡◌, refl, ap, true, false, [], ◌∷◌, ◌++◌,
  length, length-append, drop-append, leb, ltb, ◌==◌, if◌then◌else◌, Result, ok, arith, Bool-cases,
  inl, inr, ltb→lt, ltb→le, ◌∙◌,
}
use eltdx.Base.Int.{ℤ, pos, negsuc, neg_ℕ}
use eltdx.Wire.{Bytes}
use eltdx.Protocol.Varint.{varint_tail, varint_at, consume_varint}

-- Seven bits a byte, the low ones first; all bytes but the last have bit 7 set.
abbrev pub tail_bytes : ℕ → ℕ → Bytes
tail_bytes zero n = n % 128 ∷ []
tail_bytes (suc fuel) n =
    let more = (128 + n % 128) ∷ tail_bytes fuel (n / 128) in if ltb n 128 then n ∷ [] else more

-- Six bits and the sign in the first byte, the rest in the bytes behind it.
abbrev pub encode_magnitude : ℕ → ℕ → Bytes
encode_magnitude sign n =
    if ltb n 64 then (64 * sign + n) ∷ [] else (128 + 64 * sign + n % 64) ∷ tail_bytes n (n / 64)

abbrev pub encode_varint : ℤ → Bytes
encode_varint (pos n) = encode_magnitude 0 n
encode_varint (negsuc n) = encode_magnitude 1 (suc n)

pow-add_seven : (s : ℕ) → 2 ^ (s + 7) ≡ 128 * 2 ^ s
pow-add_seven s = simp towards_suc (omega arith)

step_value : (n v p : ℕ) → v + ((128 + n % 128) % 128) * p + n / 128 * (128 * p) ≡ v + n * p
step_value n v p = omega (arith, ap (λ (t : ℕ). t * p) (low n), ap (λ (t : ℕ). t * p) (split n))
  where
    low : (n : ℕ) → (128 + n % 128) % 128 ≡ n % 128
    low n = omega arith

    split : (n : ℕ) → n ≡ n % 128 + 128 * (n / 128)
    split n = omega arith

last_byte : (n : ℕ) → n < 128 → ((n / 128 % 2 == 0) ≡ true) × (n % 128 ≡ n)
last_byte n h = (ground arith, omega arith)

more_byte : (n : ℕ) → ((128 + n % 128) / 128 % 2 == 0) ≡ false
more_byte n = ground arith

read_eq : (v w p q : ℕ) → v ≡ w → p ≡ q → ◌≡◌ {A = Result (ℕ × ℕ)} (ok (v, p)) (ok (w, q))
read_eq v w p q e f = cc

varint_tail-tail_bytes :
    (fuel n : ℕ) (rest : Bytes) (position shift value : ℕ)
    → n ≤ fuel
    → varint_tail (tail_bytes fuel n ++ rest) position shift value
      ≡ ok (value + n * 2 ^ shift, position + length (tail_bytes fuel n))
unfolding varint_tail
varint_tail-tail_bytes zero n rest position shift value h =
    let e : n ≡ 0 = omega arith in rw e (read_eq _ _ _ _ (omega arith) refl)
varint_tail-tail_bytes (suc fuel) n rest position shift value h = elim (Bool-cases (ltb n 128)) [
  | inl last ↦
      let (stop, same) = last_byte n (ltb→lt n 128 last) in rw last (rw stop (rw same refl))
  | inr more ↦ rw more (
      rw (more_byte n) (
        varint_tail-tail_bytes fuel (n / 128) rest (position + 1) (shift + 7) _
          (omega (arith, ltb→le n 128 more))
        ∙ read_eq _ _ _ _ (rw (pow-add_seven shift) (step_value n value (2 ^ shift)))
            (omega arith)))
]

-- The first byte's continuation bit, sign and low six bits.
first_last :
    (sign n : ℕ)
    → sign < 2
    → n < 64
    → ((64 * sign + n) / 128 % 2 ≡ 0)
      × ((64 * sign + n) / 64 % 2 ≡ sign)
      × ((64 * sign + n) % 64 ≡ n)
first_last sign n h small = omega arith

first_more :
    (sign n : ℕ)
    → sign < 2
    → n < 64
    → ((128 + 64 * sign + n) / 128 % 2 ≡ 1)
      × ((128 + 64 * sign + n) / 64 % 2 ≡ sign)
      × ((128 + 64 * sign + n) % 64 ≡ n)
first_more sign n h small = omega arith

signed : ℕ → ℕ → ℤ
signed sign n = if sign == 0 then pos n else neg_ℕ n

signed_eq :
    (sign v w p q : ℕ)
    → v ≡ w
    → p ≡ q
    → ◌≡◌ {A = Result (ℤ × ℕ)} (ok (signed sign v, p)) (ok (signed sign w, q))
signed_eq sign v w p q e f = cc

varint_at-encode_magnitude :
    (sign n : ℕ) (rest : Bytes) (offset : ℕ)
    → sign < 2
    → varint_at (encode_magnitude sign n ++ rest) offset
      ≡ ok (signed sign n, offset + length (encode_magnitude sign n))
unfolding varint_at signed
varint_at-encode_magnitude sign n rest offset h = elim (Bool-cases (ltb n 64)) [
  | inl small ↦
      let (stop, bit, low) = first_last sign n h (ltb→lt n 64 small) in
      rw small (rw stop (rw bit (rw low refl)))
  | inr large ↦
      let (go_on, bit, low) = first_more sign (n % 64) h (omega arith) in
      rw large (
        rw go_on (
          rw bit (
            rw low (
              rw (varint_tail-tail_bytes n (n / 64) rest (offset + 1) 6 (n % 64) (omega arith))
                (signed_eq sign _ n _ _ (omega arith) (omega arith))))))
]

varint_at-encode :
    (n : ℤ) (rest : Bytes) (offset : ℕ)
    → varint_at (encode_varint n ++ rest) offset ≡ ok (n, offset + length (encode_varint n))
varint_at-encode (pos n) rest offset =
    unfold signed in varint_at-encode_magnitude 0 n rest offset (omega arith)
varint_at-encode (negsuc n) rest offset =
    unfold signed in varint_at-encode_magnitude 1 (suc n) rest offset (omega arith)

encode_magnitude_nonempty :
    (sign n : ℕ) (rest : Bytes) → 0 < length (encode_magnitude sign n ++ rest)
encode_magnitude_nonempty sign n rest = elim (Bool-cases (ltb n 64)) [
  | inl small ↦ rw small (omega arith)
  | inr large ↦ rw large (omega arith)
]

encode_varint_nonempty : (n : ℤ) (rest : Bytes) → 0 < length (encode_varint n ++ rest)
encode_varint_nonempty (pos n) rest = encode_magnitude_nonempty 0 n rest
encode_varint_nonempty (negsuc n) rest = encode_magnitude_nonempty 1 (suc n) rest

not_past :
    (before more : Bytes) → 0 < length more → leb (length (before ++ more)) (length before) ≡ false
not_past before more h = rw (length-append before more) (ground arith)

-- Reading at `offset` what stands there in this format gives the number back, whatever its sign and
-- size, and the offset behind it, with any bytes in front and behind.
pub consume_varint-encode :
    (before rest : Bytes) (n : ℤ)
    → consume_varint (before ++ (encode_varint n ++ rest)) (length before)
      ≡ ok (n, length before + length (encode_varint n))
unfolding consume_varint
consume_varint-encode before rest n =
    rw
      (
        not_past before (encode_varint n ++ rest) (encode_varint_nonempty n rest),
        drop-append (length before) before (encode_varint n ++ rest) refl,
      )
      (varint_at-encode n rest (length before))
