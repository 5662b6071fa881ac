-- ===== src/Offline/Daily/Again.antt =====
-- Appending the same daily bars a second time.
use eltdx.Base.{
  ℕ, ◌≤◌, ◌≡◌, ap, List, [], ◌∷◌, ◌++◌, some, ok, ltb→le, le→ltb, arith, All, All-weaken,
}
use mathlib.Core.Option.{map}
use eltdx.Wire.{Bytes, le_value, slice}
use eltdx.Offline.Floats.{Floats}
use eltdx.Offline.Append.{fmt_size, last_record}
use eltdx.Offline.Append.Again.{append_again}
use eltdx.Offline.Daily.{
  DailyBar, date_int, encode_daily_bar, append_daily_bar, get_last_bar_date, later,
}
use eltdx.Offline.Daily.Laws.{length-encode_daily_bar, date-encode_daily_bar}

module _ (floats : Floats) where
  open floats use {Float}

  last_date-last_record :
      (content r : Bytes)
      → last_record (some content) fmt_size ≡ some r
      → get_last_bar_date floats (some content) ≡ some (le_value (slice 0 4 r))
  unfolding get_last_bar_date last_record
  last_date-last_record content r h = ap (map (λ last. le_value (slice 0 4 last))) h

  -- Bars of which the last is the newest are not written twice: after a successful append, an
  -- append of the same bars writes nothing and leaves the file as it is.
  pub append_daily_bar_again :
      (p v : Float) (content content' : Bytes) (bars : List (DailyBar floats)) (l : DailyBar floats)
      (n : ℕ)
      → All (λ b. date_int floats b ≤ date_int floats l) (bars ++ l ∷ [])
      → append_daily_bar floats p v (some content) (bars ++ l ∷ []) ≡ ok (n, some content')
      → append_daily_bar floats p v (some content') (bars ++ l ∷ []) ≡ ok (0, some content')
  unfolding append_daily_bar
  append_daily_bar_again p v content content' bars l n newest h =
      append_again (encode_daily_bar floats p v) (later floats) (length-encode_daily_bar floats p v)
        (get_last_bar_date floats) (λ r. le_value (slice 0 4 r)) (date_int floats)
        last_date-last_record (date-encode_daily_bar floats p v) content content' bars l n
        (All-weaken _ _ (λ b below. le→ltb _ _ below) (bars ++ l ∷ []) newest)
        (λ last old.
          All-weaken _ _ (λ b below. le→ltb _ _ (omega (arith, below, ltb→le _ _ old)))
            (bars ++ l ∷ []) newest)
        h
