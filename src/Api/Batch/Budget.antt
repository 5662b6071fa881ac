-- ===== src/Api/Batch/Budget.antt =====
-- The recovery of a batch ends, within its budget of requests.
use eltdx.Base.{
  ℕ, zero, suc, ◌+◌, ◌-◌, ◌/◌, ◌≤◌, ◌<◌, ◌≡◌, refl, Bool, true, false, ◌&&◌, List, [], ◌∷◌, length,
  take, drop, ◌==◌, Result, ok, err, if◌then◌else◌, arith, length-take, length-drop,
}
use eltdx.Protocol.Text.{Text}
use eltdx.Protocol.Code.{normalize_code}
use eltdx.Api.Batch.{
  Kind, Answer, rows, failed, protocol, missing_codes, other, Recovery, Ending, returned, raised,
  no_fuel, judge, next_fetch, note_missing, settle, fetch, fetch_all, is_retryable, is_absent,
  recover_batch, Batch, OnMissing, raise_missing, skip_missing, unknown, finish, fresh, batch,
  unfinished, as_batch, unless_missing,
}

-- Where a call ended; only one without fuel is not an end.
abbrev Ended : Ending → Type 0
Ended no_fuel = ⊥
Ended _ = Unit

module _ {W Row : Type 0} (asked : W → ℕ) where
  -- What was asked for, and what may still be asked for.
  abbrev Spends : ℕ → Recovery W Row → Type 0
  Spends n s = asked s.world + s.remaining ≡ n

  abbrev Fetched : ℕ → Ending × Recovery W Row → Type 0
  Fetched n r = Ended r.0 × Spends n r.1

  next_fetch-Fetched :
      (n : ℕ) (r : Ending × Recovery W Row) (next : Recovery W Row → Ending × Recovery W Row)
      → Fetched n r
      → ((s : Recovery W Row) → Spends n s → Fetched n (next s))
      → Fetched n (next_fetch r next)
  next_fetch-Fetched n (returned, s) next p q = q s p.1
  next_fetch-Fetched n (raised e, s) next p q = p
  next_fetch-Fetched n (no_fuel, s) next p q = absurd p.0

  note_missing-Fetched :
      (n : ℕ) (full : Result Text) (s : Recovery W Row)
      → Spends n s
      → Fetched n (note_missing full s)
  note_missing-Fetched n (ok full) s p = (tt, p)
  note_missing-Fetched n (err e) s p = (tt, p)

  if-Fetched :
      (n : ℕ) (b : Bool) (r r' : Ending × Recovery W Row)
      → Fetched n r
      → Fetched n r'
      → Fetched n (if b then r else r')
  if-Fetched n true r r' p q = p
  if-Fetched n false r r' p q = q

  if-cases :
      (n : ℕ) (b : Bool) (r r' : Ending × Recovery W Row)
      → (b ≡ true → Fetched n r)
      → (b ≡ false → Fetched n r')
      → Fetched n (if b then r else r')
  if-cases n true r r' p q = p refl
  if-cases n false r r' p q = q refl

  -- The halves are fetched only of a part of two or more codes.
  Halves : ℕ → List Text → (Recovery W Row → Ending × Recovery W Row) → Type 0
  Halves n part halves = 2 ≤ length part → (s : Recovery W Row) → Spends n s → Fetched n (halves s)

  settle-Fetched :
      (n : ℕ) (kind : Kind) (part : List Text) (halves : Recovery W Row → Ending × Recovery W Row)
      (answer : Answer Row) (s : Recovery W Row)
      → Halves n part halves
      → Spends n s
      → Fetched n (settle kind part halves answer s)
  unfolding Halves
  settle-Fetched n kind part halves (rows rs) s h p = (tt, p)
  settle-Fetched n kind [] halves (failed (protocol message)) s h p = (tt, p)
  settle-Fetched n kind (code ∷ []) halves (failed (protocol message)) s h p =
      if-Fetched n (is_retryable kind message && is_absent kind message) _ _
        (note_missing-Fetched n (normalize_code code) s p) (tt, p)
  settle-Fetched n kind (code ∷ code' ∷ part) halves (failed (protocol message)) s h p =
      if-Fetched n (is_retryable kind message) _ _
        (h (omega arith) (record s { recovered = true }) p) (tt, p)
  settle-Fetched n kind part halves (failed (missing_codes full)) s h p = (tt, p)
  settle-Fetched n kind part halves (failed (other e)) s h p = (tt, p)

  module _ (kind : Kind) (query : List Text → W → Answer Row × W)
      (counts : (part : List Text) (w : W) → asked ((query part w).1) ≡ suc (asked w)) where
    fetch-Fetched :
        (fuel n : ℕ) (part : List Text) (s : Recovery W Row)
        → length part ≤ fuel
        → 0 < fuel
        → Spends n s
        → Fetched n (fetch kind query fuel part s)
    unfolding fetch Halves
    fetch-Fetched zero n part s enough some_fuel p = absurd (omega arith)
    fetch-Fetched (suc fuel) n part s enough some_fuel p =
        if-cases n (s.remaining == 0) _ _ (λ exhausted. (tt, p))
          (λ left.
            settle-Fetched n kind part _ (judge kind part ((query part s.world).0)) _
              (λ two t spends.
                let middle = length-take (length part / 2) part in
                let others = length-drop (length part / 2) part in
                next_fetch-Fetched n _ (fetch kind query fuel (drop (length part / 2) part))
                  (fetch-Fetched fuel n (take (length part / 2) part) t
                    (omega (arith, middle, two, enough)) (omega (arith, two, enough)) spends)
                  (λ t' spends'.
                    fetch-Fetched fuel n (drop (length part / 2) part) t'
                      (omega (arith, others, two, enough)) (omega (arith, two, enough)) spends'))
              (spent left))
      where
        spent : (s.remaining == 0) ≡ false → asked ((query part s.world).1) + (s.remaining - 1) ≡ n
        spent left =
            let positive : 0 < s.remaining = ground arith in
            omega (arith, counts part s.world, p, positive)

    fetch_all-Fetched :
        (n : ℕ) (full : List Text) (s : Recovery W Row)
        → asked s.world + s.remaining + 1 ≡ n
        → Fetched n (fetch_all kind query full s)
    unfolding fetch_all Halves
    fetch_all-Fetched n full s p =
        settle-Fetched n kind full _ (judge kind full ((query full s.world).0)) _
          (λ two t spends.
            let middle = length-take (length full / 2) full in
            let others = length-drop (length full / 2) full in
            next_fetch-Fetched n _ (fetch kind query (length full) (drop (length full / 2) full))
              (fetch-Fetched (length full) n (take (length full / 2) full) t (omega (arith, middle))
                (omega (arith, two)) spends)
              (λ t' spends'.
                fetch-Fetched (length full) n (drop (length full / 2) full) t'
                  (omega (arith, others)) (omega (arith, two)) spends'))
          (omega (arith, counts full s.world, p))

-- A batch or an exception.
abbrev pub HasResult : {Row : Type 0} → Batch Row → Type 0
HasResult unfinished = ⊥
HasResult _ = Unit

as_batch-HasResult : {Row : Type 0} (r : Result (List Row)) → HasResult (as_batch r)
as_batch-HasResult (ok ordered) = tt
as_batch-HasResult (err e) = tt

module _ {W Row : Type 0} (full_code : Row → Text) (asked : W → ℕ) where
  assemble-HasResult :
      (b : Bool) (r : Result (List Row)) (rs : List Row)
      → HasResult (if b then as_batch r else batch rs)
  assemble-HasResult true r rs = as_batch-HasResult r
  assemble-HasResult false r rs = tt

  missing-HasResult :
      (missing : List Text) (x : Batch Row) → HasResult x → HasResult (unless_missing missing x)
  missing-HasResult [] x p = p
  missing-HasResult (c ∷ cs) x p = tt

  finish-HasResult :
      (stop : Bool) (full : List Text) (n : ℕ) (r : Ending × Recovery W Row)
      → Fetched asked n r
      → HasResult ((finish full_code stop full r).0)
        × (asked ((finish full_code stop full r).1) ≤ n)
  finish-HasResult true full n (returned, s) p =
      (missing-HasResult s.missing _ (assemble-HasResult s.recovered _ _), omega (arith, p.1))
  finish-HasResult false full n (returned, s) p =
      (assemble-HasResult s.recovered _ _, omega (arith, p.1))
  finish-HasResult stop full n (raised e, s) p = (tt, omega (arith, p.1))
  finish-HasResult stop full n (no_fuel, s) p = absurd p.0

  -- For every list of codes and whatever the queries answer, `recover_batch` comes to its end with a
  -- batch or an exception, and asks at most 33 times: once for all codes, and 32 times to recover.
  pub recover_batch_budget :
      (kind : Kind) (query : List Text → W → Answer Row × W) (on_missing : OnMissing)
      (full : List Text) (w : W)
      → ((part : List Text) (v : W) → asked ((query part v).1) ≡ suc (asked v))
      → HasResult ((recover_batch full_code kind query on_missing full w).0)
        × (asked ((recover_batch full_code kind query on_missing full w).1) ≤ asked w + 33)
  unfolding recover_batch
  recover_batch_budget kind query raise_missing full w counts =
      finish-HasResult true full (asked w + 33) _
        (fetch_all-Fetched asked kind query counts (asked w + 33) full (fresh w) (omega arith))
  recover_batch_budget kind query skip_missing full w counts =
      finish-HasResult false full (asked w + 33) _
        (fetch_all-Fetched asked kind query counts (asked w + 33) full (fresh w) (omega arith))
  recover_batch_budget kind query unknown full w counts = (tt, omega arith)
