-- ===== src/Offline/Floats.antt =====
-- Python's `float`, which the development does not compute with: a type and the operations that the
-- code applies to it.
use eltdx.Base.{ℕ, ◌≡◌, length, Result, ok}
use eltdx.Base.Int.{ℤ}
use eltdx.Wire.{Bytes}

pub record Floats : Type 1 where
  pub Float : Type 0
  -- `struct.unpack("<f", bs)` and `struct.pack("<f", x)`, which raises for a value out of range,
  -- and gives four bytes
  pub unpack_f : Bytes → Float
  pub pack_f : Float → Result Bytes
  pub pack_f_length : (x : Float) (bs : Bytes) → pack_f x ≡ ok bs → length bs ≡ 4
  pub of_nat : ℕ → Float
  pub mul : Float → Float → Float
  pub div : Float → Float → Float
  -- `int(round(x))`, which raises for an infinity and for no number
  pub round_int : Float → Result ℤ
