-- ===== src/Api/Subscription/Loop.antt =====
-- `run()` of `QuoteSubscription`, src/eltdx/api/subscription.py, in a number of rounds that is
-- given: the outcome is `none` when they were not enough. `KeyboardInterrupt` is left out.
use eltdx.Base.{
  ℕ, zero, suc, ◌+◌, ◌-◌, Bool, true, false, Option, none, some, Result, ok, err, value_error, leb,
  if◌then◌else◌,
}
use eltdx.Base.Int.{ℤ, pos}
use eltdx.Base.Effect.{◌>>=◌, ◌>>◌, pure}
use eltdx.Api.Subscription.{Subscription, Outside, is_not_positive, ticks}
use eltdx.Api.Subscription.Run.{State, Method, read, clock, at_most, activate, close}
use eltdx.Api.Subscription.Rounds.{run_once, dispatch}

-- What a run that comes to an end leaves behind.
abbrev pub Outcome : Type 0 → Type 0
Outcome W = Option (Result (Unit {0}) × State W)

abbrev pub as_timeout : Option ℕ → Option ℤ
as_timeout none = none
as_timeout (some t) = some (pos t)

abbrev pub with_interval : Option ℤ → Subscription → Subscription
with_interval none s = s
with_interval interval s = record s { reactivate_interval = ticks interval }

module _ {W : Type 0} (out : Outside W) where
  unfoldable pub limited : Option ℕ → Option ℕ → Method W (Option ℕ)
  limited timeout none = pure timeout
  limited timeout (some deadline) = do now ← clock out; pure (at_most timeout (deadline - now))

  -- `deadline is not None and time.monotonic() >= deadline`
  unfoldable pub is_reached : Option ℕ → Method W Bool
  is_reached none = pure false
  is_reached (some deadline) = do now ← clock out; pure (leb deadline now)

  -- The body of the loop: whether the loop ends.
  unfoldable pub round : Option ℕ → Method W Bool
  round deadline = do
    timeout ← read (λ s. s.timeout)
    effective ← limited timeout deadline
    run_once out (as_timeout effective)
    is_reached deadline

  abbrev pub go_on : Result Bool × State W → (State W → Outcome W) → Outcome W
  go_on (ok true, st) next = some (ok tt, st)
  go_on (ok false, st) next = next st
  go_on (err e, st) next = some (err e, st)

  -- `while not self._stopped`
  unfoldable pub poll_loop : ℕ → Option ℕ → State W → Outcome W
  poll_loop zero deadline st = if st.0.stopped then some (ok tt, st) else none
  poll_loop (suc fuel) deadline st =
      if st.0.stopped then some (ok tt, st) else go_on (round deadline st) (poll_loop fuel deadline)

  unfoldable pub deadline_of : Option ℕ → Method W (Option ℕ)
  deadline_of none = pure none
  deadline_of (some duration) = do now ← clock out; pure (some (now + duration))

  -- The part before the loop.
  unfoldable pub start : Option ℕ → Method W (Option ℕ)
  start duration = do records ← activate out; dispatch out records; deadline_of duration

  abbrev pub enter : ℕ → Result (Option ℕ) × State W → Outcome W
  enter fuel (ok deadline, st) = poll_loop fuel deadline st
  enter fuel (err e, st) = some (err e, st)

  -- `finally: self.close()`
  abbrev pub closed : Outcome W → Outcome W
  closed none = none
  closed (some (r, st)) = some (r, close out st)

  -- `run(duration=..., reactivate_interval=...)`
  unfoldable pub run : ℕ → Option ℕ → Option ℤ → State W → Outcome W
  run fuel duration interval (s, w) =
      if is_not_positive interval
      then some (err value_error, (s, w))
      else closed (enter fuel (start duration (with_interval interval s, w)))
