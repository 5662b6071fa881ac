-- ===== src/Api/Batch.antt =====
-- `recover_batch` of src/eltdx/api/_batch.py. `query` is a function on a state `W` of its own, and
-- answers with rows; the answers of custom transports that are no rows are left out.
pub mod Budget
pub mod Order
use eltdx.Base.{
  ℕ, zero, suc, ◌-◌, ◌/◌, Bool, true, false, not, ◌&&◌, ◌||◌, List, [], ◌∷◌, ◌++◌, length, take,
  drop, ◌==◌, Result, ok, err, ◌>>=◌, if◌then◌else◌, Error, value_error,
}
use eltdx.Base.Slices.{flatten}
use eltdx.Protocol.Text.{Text, codes, starts_with, contains, text_eq}
use eltdx.Protocol.Code.{normalize_code}

-- A `ProtocolError` by its message, a `MissingCodesError` by its codes, or another exception.
pub data Raised : Type 0 where
  protocol : Text → Raised
  missing_codes : List Text → Raised
  other : Error → Raised

pub data Kind : Type 0 where
  finance : Kind
  snapshot : Kind

pub data Answer (Row : Type 0) : Type 0 where
  rows : List Row → Answer Row
  failed : Raised → Answer Row

-- `_RECOVERY_REQUESTS`
abbrev pub recovery_requests : ℕ
recovery_requests = 32

abbrev pub empty_response : Kind → Text
empty_response finance = codes "empty finance response"
empty_response snapshot = codes "empty snapshot response"

-- The message of a mismatch, without its numbers.
abbrev pub count_mismatch : Kind → Text
count_mismatch finance = codes "finance response count mismatch: "
count_mismatch snapshot = codes "snapshot response count mismatch: "

abbrev pub budget_exhausted : Kind → Text
budget_exhausted finance = codes "finance batch recovery request budget exhausted (32)"
budget_exhausted snapshot = codes "snapshot batch recovery request budget exhausted (32)"

abbrev pub is_retryable : Kind → Text → Bool
is_retryable finance message =
    contains (codes "finance batch") message
    || (starts_with (codes "empty finance response") message
        || starts_with (codes "finance response count mismatch") message)
is_retryable snapshot message =
    starts_with (codes "snapshot record marker not found:") message
    || (starts_with (codes "snapshot missing requested record:") message
        || (starts_with (codes "snapshot response count mismatch:") message
            || starts_with (codes "empty snapshot response") message))

abbrev pub is_absent : Kind → Text → Bool
is_absent finance message =
    starts_with (codes "finance batch missing record:") message
    || starts_with (codes "empty finance response") message
is_absent snapshot message =
    starts_with (codes "snapshot missing requested record:") message
    || starts_with (codes "empty snapshot response") message

-- The variables that `fetch` changes, and the state of the outside.
pub record Recovery (W Row : Type 0) : Type 0 where
  pub remaining : ℕ
  pub recovered : Bool
  pub missing : List Text
  pub responses : List (List Row)
  pub world : W

-- How a call of `fetch` ends.
pub data Ending : Type 0 where
  returned : Ending
  raised : Raised → Ending
  no_fuel : Ending

abbrev pub judge : {Row : Type 0} → Kind → List Text → Answer Row → Answer Row
judge kind [] (rows []) = rows []
judge kind (code ∷ part) (rows []) = failed (protocol (empty_response kind))
judge kind part (rows (r ∷ rs)) =
    if length (r ∷ rs) == length part
    then rows (r ∷ rs)
    else failed (protocol (count_mismatch kind))
judge kind part (failed e) = failed e

module _ {W Row : Type 0} where
  abbrev pub next_fetch :
      Ending × Recovery W Row → (Recovery W Row → Ending × Recovery W Row) → Ending × Recovery W Row
  next_fetch (returned, s) next = next s
  next_fetch (raised e, s) next = (raised e, s)
  next_fetch (no_fuel, s) next = (no_fuel, s)

  -- A code that the server does not have, by `normalize_code`
  abbrev pub note_missing : Result Text → Recovery W Row → Ending × Recovery W Row
  note_missing (ok full) s =
      (returned, record s { missing = s.missing ++ full ∷ []; recovered = true })
  note_missing (err e) s = (raised (other e), s)

  -- What is done with a `ProtocolError`; `halves` fetches the two halves of the part.
  abbrev pub handle :
      Kind
      → List Text
      → Text
      → (Recovery W Row → Ending × Recovery W Row)
      → Recovery W Row
      → Ending × Recovery W Row
  handle kind [] message halves s = (raised (protocol message), s)
  handle kind (code ∷ []) message halves s =
      if is_retryable kind message && is_absent kind message
      then note_missing (normalize_code code) s
      else (raised (protocol message), s)
  handle kind (code ∷ code' ∷ part) message halves s =
      if is_retryable kind message
      then halves (record s { recovered = true })
      else (raised (protocol message), s)

  abbrev pub settle :
      Kind
      → List Text
      → (Recovery W Row → Ending × Recovery W Row)
      → Answer Row
      → Recovery W Row
      → Ending × Recovery W Row
  settle kind part halves (rows rs) s = (returned, record s { responses = s.responses ++ rs ∷ [] })
  settle kind part halves (failed (protocol message)) s = handle kind part message halves s
  settle kind part halves (failed (missing_codes full)) s = (raised (missing_codes full), s)
  settle kind part halves (failed (other e)) s = (raised (other e), s)

  module _ (kind : Kind) (query : List Text → W → Answer Row × W) where
    -- The part of `fetch` behind its budget.
    abbrev pub ask :
        List Text
        → (Recovery W Row → Ending × Recovery W Row)
        → Recovery W Row
        → Ending × Recovery W Row
    ask part halves s =
        let r = query part s.world in
        settle kind part halves (judge kind part r.0) (record s { world = r.1 })

    -- `fetch(part)`, in at most `fuel` levels of halving
    unfoldable pub fetch : ℕ → List Text → Recovery W Row → Ending × Recovery W Row
    fetch zero part s = (no_fuel, s)
    fetch (suc fuel) part s =
        let middle = length part / 2 in
        let halves : Recovery W Row → Ending × Recovery W Row =
          λ t. next_fetch (fetch fuel (take middle part) t) (fetch fuel (drop middle part)) in
        if s.remaining == 0
        then (raised (protocol (budget_exhausted kind)), s)
        else ask part halves (record s { remaining = s.remaining - 1 })

    -- `fetch(codes, initial=True)`, which is not counted
    unfoldable pub fetch_all : List Text → Recovery W Row → Ending × Recovery W Row
    fetch_all full s =
        let middle = length full / 2 in
        let fuel = length full in
        let halves : Recovery W Row → Ending × Recovery W Row =
          λ t. next_fetch (fetch fuel (take middle full) t) (fetch fuel (drop middle full)) in
        ask full halves s

-- A row by its `full_code`.
module _ {Row : Type 0} (full_code : Row → Text) where
  -- `by_code[code].popleft()`, where there is such a row: the first one, and the others
  abbrev pub pop_row : Text → List Row → List Row × List Row
  pop_row code [] = ([], [])
  pop_row code (r ∷ rs) =
      let others = pop_row code rs in
      if text_eq (full_code r) code then (r ∷ [], rs) else (others.0, r ∷ others.1)

  abbrev pub behind : List Row → Result (List Row) → Result (List Row)
  behind found (ok ordered) = ok (found ++ ordered)
  behind found (err e) = err e

  -- `ordered`, of the codes as they were asked for
  unfoldable pub reorder : List Text → List Row → Result (List Row)
  reorder [] rs = ok []
  reorder (code ∷ full) rs = do
    c ← normalize_code code
    behind ((pop_row c rs).0) (reorder full ((pop_row c rs).1))

-- What `recover_batch` returns or raises.
pub data Batch (Row : Type 0) : Type 0 where
  batch : List Row → Batch Row
  refused : Raised → Batch Row
  unfinished : Batch Row

abbrev first_response : {Row : Type 0} → List (List Row) → List Row
first_response [] = []
first_response (rs ∷ responses) = rs

abbrev pub as_batch : {Row : Type 0} → Result (List Row) → Batch Row
as_batch (ok ordered) = batch ordered
as_batch (err e) = refused (other e)

abbrev pub unless_missing : {Row : Type 0} → List Text → Batch Row → Batch Row
unless_missing [] x = x
unless_missing (c ∷ cs) x = refused (missing_codes (c ∷ cs))

module _ {W Row : Type 0} (full_code : Row → Text) where
  abbrev pub assemble : List Text → Recovery W Row → Batch Row
  assemble full s =
      if s.recovered
      then as_batch (reorder full_code full (flatten s.responses))
      else batch (first_response s.responses)

  -- Whether the exception is raised: `on_missing == "raise"`
  abbrev pub check_missing : Bool → List Text → Recovery W Row → Batch Row
  check_missing true full s = unless_missing s.missing (assemble full s)
  check_missing false full s = assemble full s

  abbrev pub finish : Bool → List Text → Ending × Recovery W Row → Batch Row × W
  finish raise_missing full (returned, s) = (check_missing raise_missing full s, s.world)
  finish raise_missing full (raised e, s) = (refused e, s.world)
  finish raise_missing full (no_fuel, s) = (unfinished, s.world)

abbrev pub fresh : {W Row : Type 0} → W → Recovery W Row
fresh w = record {
  remaining = recovery_requests;
  recovered = false;
  missing = [];
  responses = [];
  world = w;
}

-- `recover_batch`; `on_missing` is "raise", "skip" or something else
pub data OnMissing : Type 0 where
  raise_missing : OnMissing
  skip_missing : OnMissing
  unknown : OnMissing

unfoldable pub recover_batch :
    {W Row : Type 0}
    → (Row → Text)
    → Kind
    → (List Text → W → Answer Row × W)
    → OnMissing
    → List Text
    → W
    → Batch Row × W
unfolding fetch_all
recover_batch full_code kind query raise_missing full w =
    finish full_code true full (fetch_all kind query full (fresh w))
recover_batch full_code kind query skip_missing full w =
    finish full_code false full (fetch_all kind query full (fresh w))
recover_batch full_code kind query unknown full w = (refused (other value_error), w)
