-- ===== src/Tests/Samples.antt =====
-- Concrete stand-ins for the code that the development takes as parameters.
use eltdx.Base.{
  ℕ, ◌*◌, ◌/◌, ◌≤◌, ◌≡◌, [], length, take, drop, ap, length-take, Option, none, some, ok, true,
  arith,
}
use eltdx.Base.Int.{pos}
use eltdx.Wire.{Bytes, le_value, pack_uint}
use eltdx.Frame.{Zlib, Inflation}
use eltdx.Offline.Floats.{Floats}
use eltdx.Offline.Daily.Laws.{pack_uint-ok}

-- Whole numbers as floats
abbrev pub whole_floats : Floats
whole_floats = record {
  Float = ℕ;
  unpack_f = le_value;
  pack_f = pack_uint 4;
  pack_f_length = λ x bs h. ap length (pack_uint-ok x bs h).0;
  of_nat = λ n. n;
  mul = ◌*◌;
  div = ◌/◌;
  round_int = λ n. ok (pos n);
}

abbrev stored : Bytes → ℕ → Inflation
stored raw limit = record {
  output = take limit raw;
  unconsumed_tail = drop limit raw;
  unused_data = [];
  eof = true;
}

abbrev output_of : Option Inflation → Bytes
output_of none = []
output_of (some r) = r.output

-- An inflater of streams that are not compressed
abbrev pub stored_zlib : Zlib
stored_zlib = record {
  inflate = λ raw limit. some (stored raw limit);
  inflate_bound = λ raw limit r pos h. bound raw limit r h;
}
  where
    bound :
        (raw : Bytes) (limit : ℕ) (r : Inflation)
        → some (stored raw limit) ≡ some r
        → length r.output ≤ limit
    bound raw limit r h = omega (arith, length-take limit raw, ap (λ o. length (output_of o)) h)
