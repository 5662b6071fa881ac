-- ===== src/Offline/Append.antt =====
-- Appending to a file of fixed-size records: src/eltdx/offline/alignment.py, and `_append` of
-- src/eltdx/offline/write_min_bar.py, whose steps `append_daily_bar` and `append_ex_daily_bar` of
-- write_daily.py and write_ex_daily.py take too.
pub mod Laws
pub mod Reading
pub mod Again
use eltdx.Base.{
  ℕ, ◌+◌, ◌-◌, ◌/◌, ◌%◌, Bool, true, false, not, List, [], ◌∷◌, ◌++◌, length, Option, none, some,
  Result, ok, err, ◌>>=◌, ◌>>◌, raise_if, value_error, resource_format_error, ltb, ◌==◌,
  if◌then◌else◌,
}
use eltdx.Wire.{Bytes, slice}
use eltdx.Wire.Records.{records}

-- A path: no file, or the bytes of one.
abbrev pub File : Type 0
File = Option Bytes

unfoldable pub ensure_aligned_for_append : File → ℕ → Result (Unit {0})
ensure_aligned_for_append none record_size = raise_if (record_size == 0) value_error
ensure_aligned_for_append (some content) record_size = do
  raise_if (record_size == 0) value_error
  raise_if (not (length content % record_size == 0)) resource_format_error

-- The size of `struct.Struct("<IIIIIfII")`, and of the other two layouts.
abbrev pub fmt_size : ℕ
fmt_size = 32

-- The loop that reads a file's content; its `range` has `(len - 32) / 32 + 1` steps.
unfoldable pub whole_records {ℓ} : {A : Type ℓ} → (Bytes → A) → Bytes → List A
unfolding records
whole_records f content =
    if ltb (length content) fmt_size
    then []
    else records fmt_size f ((length content - fmt_size) / fmt_size + 1) 0 content

-- The last complete record: `None` for no file and for one that is too short.
unfoldable pub last_record : File → ℕ → Option Bytes
last_record none record_size = none
last_record (some content) record_size =
    if ltb (length content) record_size
    then none
    else some
        (slice (length content - length content % record_size - record_size) record_size content)

-- `open("ab")` and `write`
abbrev pub write_behind : File → Bytes → File
write_behind none bs = some bs
write_behind (some content) bs = some (content ++ bs)

module _ {Bar Key : Type 0} (encode : Bar → Result Bytes) (newer : Key → Bar → Bool) where
  -- `[bar for bar in bars if bar.key > last]`
  abbrev pub newer_bars : Key → List Bar → List Bar
  newer_bars last [] = []
  newer_bars last (bar ∷ bars) =
      if newer last bar then bar ∷ newer_bars last bars else newer_bars last bars

  abbrev pub new_bars : Option Key → List Bar → List Bar
  new_bars none bars = bars
  new_bars (some last) bars = newer_bars last bars

  -- `b"".join(encode(bar) for bar in bars)`
  abbrev pub encode_all : List Bar → Result Bytes
  encode_all [] = ok []
  encode_all (bar ∷ bars) = do bs ← encode bar; rest ← encode_all bars; ok (bs ++ rest)

  write_new : File → List Bar → Result (ℕ × File)
  write_new file [] = ok (0, file)
  write_new file (bar ∷ bars) = do
    bs ← encode_all (bar ∷ bars)
    ok (length (bar ∷ bars), write_behind file bs)

  -- The number of records written, and the file behind it. Nothing is written before all records
  -- are encoded.
  unfoldable pub append : (File → Option Key) → ℕ → File → List Bar → Result (ℕ × File)
  unfolding write_new ensure_aligned_for_append
  append last_key record_size file bars = do
    ensure_aligned_for_append file record_size
    write_new file (new_bars (last_key file) bars)
