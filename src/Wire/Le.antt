-- ===== src/Wire/Le.antt =====
-- `bytes`, slicing, and the little-endian integers of `struct` and `int.from_bytes`.
use eltdx.Base.{
  ℕ, zero, suc, ◌+◌, ◌*◌, ◌%◌, ◌/◌, ◌^◌, ◌<◌, ◌≤◌, ◌≡◌, refl, ap, List, [], ◌∷◌, take, drop, length,
  All, arith, length-take, length-drop, Result, ok, err, struct_error, ltb, if◌then◌else◌,
}

abbrev pub Bytes : Type 0
Bytes = List ℕ

abbrev pub IsBytes : Bytes → Type 0
IsBytes = All (λ b. b < 256)

-- `data[start:start + size]`
abbrev pub slice : ℕ → ℕ → Bytes → Bytes
slice start size bs = take size (drop start bs)

-- `int.from_bytes(bs, "little")`
abbrev pub le_value : Bytes → ℕ
le_value [] = 0
le_value (b ∷ bs) = b + 256 * le_value bs

-- `n.to_bytes(size, "little")` for `n` in range
abbrev pub le_bytes : ℕ → ℕ → Bytes
le_bytes zero n = []
le_bytes (suc size) n = n % 256 ∷ le_bytes size (n / 256)

-- `struct.pack` of one unsigned field raises out of range.
abbrev pub pack_uint : ℕ → ℕ → Result Bytes
pack_uint size n = if ltb n (256 ^ size) then ok (le_bytes size n) else err struct_error

pub length-le_bytes : (size n : ℕ) → length (le_bytes size n) ≡ size
length-le_bytes zero n = refl
length-le_bytes (suc size) n = ap suc (length-le_bytes size (n / 256))

pub le_bytes-IsBytes : (size n : ℕ) → IsBytes (le_bytes size n)
le_bytes-IsBytes zero n = tt
le_bytes-IsBytes (suc size) n = (omega arith, le_bytes-IsBytes size (n / 256))

pub u16_round : (n : ℕ) → n < 2 ^ 16 → le_value (le_bytes 2 n) ≡ n
u16_round n h = omega arith

pub u32_round : (n : ℕ) → n < 2 ^ 32 → le_value (le_bytes 4 n) ≡ n
u32_round n h = omega arith

pub length-slice :
    (start size : ℕ) (bs : Bytes) → start + size ≤ length bs → length (slice start size bs) ≡ size
length-slice start size bs h = omega (arith, length-take size (drop start bs), length-drop start bs)
