-- ===== src/Api/Subscription/Deadline/End.antt =====
-- The end of a run with a deadline, in as many rounds as the duration has ticks and one more.
use eltdx.Base.{
  ℕ, zero, suc, ◌+◌, ◌≤◌, ◌<◌, ◌≡◌, refl, Bool, true, false, Option, none, some, Result, ok, err,
  arith, inl, inr, ◌⊎◌, if◌then◌else◌,
}
use eltdx.Base.Int.{ℤ}
use eltdx.Base.Effect.{and_then, pure, ◌>>=◌, ◌>>◌}
use eltdx.Api.Subscription.{Outside, is_not_positive}
use eltdx.Api.Subscription.Run.{State, Method, clock, close, activate}
use eltdx.Api.Subscription.Rounds.{dispatch}
use eltdx.Api.Subscription.Loop.{Outcome, run, enter, closed, start, poll_loop, go_on, deadline_of}
use eltdx.Api.Subscription.Deadline.{ClockLaws, Rounds, round-Rounds}

-- The outcome is there.
abbrev pub HasEnded : {W : Type 0} → Outcome W → Type 0
HasEnded {W} o = (r : Result (Unit {0}) × State W) × (o ≡ some r)

module _ {W : Type 0} {out : Outside W} {time : W → ℕ} (laws : ClockLaws out time) where
  if-HasEnded :
      (b : Bool) (r : Result (Unit {0}) × State W) (o : Outcome W)
      → HasEnded o
      → HasEnded (if b then some r else o)
  if-HasEnded true r o h = (r, refl)
  if-HasEnded false r o h = h

  taken-HasEnded :
      (b : Bool) (r : Result (Unit {0}) × State W) (o : Outcome W)
      → b ≡ true
      → HasEnded (if b then some r else o)
  taken-HasEnded true r o h = (r, refl)
  taken-HasEnded false r o h = absurd (ground (arith, h))

  halted-HasEnded :
      (fuel deadline : ℕ) (st : State W)
      → st.0.stopped ≡ true
      → HasEnded (poll_loop out fuel (some deadline) st)
  unfolding poll_loop
  halted-HasEnded zero deadline st halted = taken-HasEnded st.0.stopped _ _ halted
  halted-HasEnded (suc fuel) deadline st halted = taken-HasEnded st.0.stopped _ _ halted

  go_on-HasEnded :
      (t deadline : ℕ) (r : Result Bool × State W) (next : State W → Outcome W)
      → Rounds laws t deadline r
      → ((st : State W)
          → (st.0.stopped ≡ true) ⊎ ((suc t ≤ time st.1) × (suc t < deadline))
          → HasEnded (next st))
      → HasEnded (go_on out r next)
  go_on-HasEnded t deadline (ok true, st) next q h = ((ok tt, st), refl)
  go_on-HasEnded t deadline (ok false, st) next q h = h st q
  go_on-HasEnded t deadline (err e, st) next q h = ((err e, st), refl)

  poll_loop-HasEnded :
      (fuel deadline : ℕ) (st : State W)
      → deadline ≤ time st.1 + fuel
      → HasEnded (poll_loop out (suc fuel) (some deadline) st)
  unfolding poll_loop
  poll_loop-HasEnded zero deadline st enough = if-HasEnded st.0.stopped _ _ (
      go_on-HasEnded (time st.1) deadline _ _ (round-Rounds laws deadline st) (λ st' q. elim q [
        | inl halted ↦ halted-HasEnded zero deadline st' halted
        | inr later ↦ absurd (omega (arith, later.1, enough))
      ]))
  poll_loop-HasEnded (suc fuel) deadline st enough = if-HasEnded st.0.stopped _ _ (
      go_on-HasEnded (time st.1) deadline _ _ (round-Rounds laws deadline st) (λ st' q. elim q [
        | inl halted ↦ halted-HasEnded (suc fuel) deadline st' halted
        | inr later ↦ poll_loop-HasEnded fuel deadline st' (omega (arith, later.0, enough))
      ]))

  -- The deadline of a run is no further than its duration.
  abbrev Due : ℕ → Result (Option ℕ) × State W → Type 0
  Due duration (ok none, st) = ⊥
  Due duration (ok (some deadline), st) = deadline ≤ time st.1 + duration
  Due duration (err e, st) = Unit

  deadline-Due : (duration : ℕ) (st : State W) → Due duration (deadline_of out (some duration) st)
  unfolding deadline_of clock pure ◌>>=◌
  deadline-Due duration st = omega (arith, laws.clock_reads st.1, laws.clock_later st.1)

  and_then-Due :
      {A : Type 0} (duration : ℕ) (r : Result A × State W) (f : A → Method W (Option ℕ))
      → ((a : A) (st : State W) → Due duration (f a st))
      → Due duration (and_then r f)
  and_then-Due duration (ok a, st) f h = h a st
  and_then-Due duration (err e, st) f h = tt

  start-Due : (duration : ℕ) (st : State W) → Due duration (start out (some duration) st)
  unfolding start ◌>>=◌ ◌>>◌
  start-Due duration st =
      and_then-Due duration (activate out st)
        (λ records. do dispatch out records; deadline_of out (some duration))
        (λ records st'.
          and_then-Due duration (dispatch out records st') (λ n. deadline_of out (some duration))
            (λ n st''. deadline-Due duration st''))

  enter-HasEnded :
      (duration : ℕ) (r : Result (Option ℕ) × State W)
      → Due duration r
      → HasEnded (enter out (suc duration) r)
  enter-HasEnded duration (ok none, st) due = absurd due
  enter-HasEnded duration (ok (some deadline), st) due = poll_loop-HasEnded duration deadline st due
  enter-HasEnded duration (err e, st) due = ((err e, st), refl)

  closed-HasEnded : (o : Outcome W) → HasEnded o → HasEnded (closed out o)
  closed-HasEnded none h = absurd (ground (arith, h.1))
  closed-HasEnded (some (r, st)) h = ((r, close out st), refl)

  -- Where the clock goes on with every poll, a run with a duration of `d` ticks comes to its end,
  -- by a return or an exception, after at most `d + 1` rounds.
  pub run-HasEnded :
      (duration : ℕ) (interval : Option ℤ) (st : State W)
      → HasEnded (run out (suc duration) (some duration) interval st)
  unfolding run
  run-HasEnded duration interval (s, w) =
      if-HasEnded (is_not_positive interval) _ _
        (closed-HasEnded _ (enter-HasEnded duration _ (start-Due duration _)))
