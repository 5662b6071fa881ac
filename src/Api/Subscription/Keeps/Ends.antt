-- ===== src/Api/Subscription/Keeps/Ends.antt =====
-- Properties that a run keeps from its first step to its end.
use eltdx.Base.{
  ℕ, zero, suc, ◌++◌, Bool, true, false, [], Option, none, some, Result, ok, err, if◌then◌else◌,
  length,
}
use eltdx.Base.Effect.{
  Keeps, bind-Keeps, result-Keeps, then-Keeps, raise-Keeps, modify-Keeps, attempt-Keeps, pure-Keeps,
}
use eltdx.Api.Subscription.{Subscription, Outside}
use eltdx.Api.Subscription.Loop.{
  limited, is_reached, round, deadline_of, start, poll_loop, enter, go_on, closed, Outcome,
}
use eltdx.Api.Subscription.Run.{
  State, activate, refresh_all, prepare_connections, release_connections, stop,
}
use eltdx.Api.Subscription.Keeps.{
  Stable, dispatch-Keeps, read-Keeps, refresh_group-Keeps, run_once-Keeps,
}

-- The other steps of `run`.
pub record RunStable {W : Type 0} (out : Outside W) (P : State W → Type 0) : Type 0 where
  pub rounds : Stable out P
  pub prepare_keeps : Keeps P (prepare_connections out)
  pub release_keeps : (st : State W) → P st → P (release_connections out st)
  pub stop_keeps : (s : Subscription) (w : W) → P (s, w) → P (stop s, w)

module _ {W : Type 0} {out : Outside W} {P : State W → Type 0} (stable : RunStable out P) where
  refresh_all-Keeps : (left index : ℕ) → Keeps P (refresh_all out left index)
  unfolding refresh_all
  refresh_all-Keeps zero index = pure-Keeps []
  refresh_all-Keeps (suc left) index =
      bind-Keeps (refresh_group-Keeps stable.rounds index) (λ records.
        bind-Keeps (refresh_all-Keeps left (suc index)) (λ more. pure-Keeps (records ++ more)))

  pub activate-Keeps : Keeps P (activate out)
  unfolding activate
  activate-Keeps = then-Keeps stable.prepare_keeps (
      bind-Keeps (read-Keeps _) (λ groups.
        bind-Keeps (attempt-Keeps (refresh_all-Keeps (length groups) 0)) (λ outcome.
          result-Keeps outcome (λ records. pure-Keeps records)
            (λ e. then-Keeps (modify-Keeps _ stable.release_keeps) (raise-Keeps e)))))

  start-Keeps : (duration : Option ℕ) → Keeps P (start out duration)
  unfolding start deadline_of
  start-Keeps none =
      bind-Keeps activate-Keeps
        (λ records. then-Keeps (dispatch-Keeps stable.rounds records) (pure-Keeps none))
  start-Keeps (some duration) = bind-Keeps activate-Keeps (λ records.
      then-Keeps (dispatch-Keeps stable.rounds records)
        (bind-Keeps stable.rounds.clock_keeps (λ now. pure-Keeps _)))

  pub limited-Keeps : (timeout deadline : Option ℕ) → Keeps P (limited out timeout deadline)
  unfolding limited
  limited-Keeps timeout none = pure-Keeps timeout
  limited-Keeps timeout (some deadline) = bind-Keeps stable.rounds.clock_keeps (λ now. pure-Keeps _)

  is_reached-Keeps : (deadline : Option ℕ) → Keeps P (is_reached out deadline)
  unfolding is_reached
  is_reached-Keeps none = pure-Keeps false
  is_reached-Keeps (some deadline) = bind-Keeps stable.rounds.clock_keeps (λ now. pure-Keeps _)

  round-Keeps : (deadline : Option ℕ) → Keeps P (round out deadline)
  unfolding round
  round-Keeps deadline = bind-Keeps (read-Keeps _) (λ timeout.
      bind-Keeps (limited-Keeps timeout deadline)
        (λ effective. then-Keeps (run_once-Keeps stable.rounds _) (is_reached-Keeps deadline)))

  -- Whatever `run` leaves when it comes to its end, by a return or by an exception.
  abbrev pub Ends : Outcome W → Type 0
  Ends none = Unit
  Ends (some (r, st)) = P st

  stopped-Ends :
      (b : Bool) (st : State W) (next : Outcome W)
      → P st
      → Ends next
      → Ends (if b then some (ok tt, st) else next)
  stopped-Ends true st next p q = p
  stopped-Ends false st next p q = q

  go_on-Ends :
      (r : Result Bool × State W) (next : State W → Outcome W)
      → P (r.1)
      → ((st : State W) → P st → Ends (next st))
      → Ends (go_on out r next)
  go_on-Ends (ok true, st) next p q = p
  go_on-Ends (ok false, st) next p q = q st p
  go_on-Ends (err e, st) next p q = p

  poll_loop-Ends :
      (fuel : ℕ) (deadline : Option ℕ) (st : State W) → P st → Ends (poll_loop out fuel deadline st)
  unfolding poll_loop
  poll_loop-Ends zero deadline st p = stopped-Ends st.0.stopped st none p tt
  poll_loop-Ends (suc fuel) deadline st p = stopped-Ends st.0.stopped st _ p (
      go_on-Ends (round out deadline st) (poll_loop out fuel deadline)
        ((round-Keeps deadline).keeps st p) (poll_loop-Ends fuel deadline))

  enter-Ends : (fuel : ℕ) (r : Result (Option ℕ) × State W) → P (r.1) → Ends (enter out fuel r)
  enter-Ends fuel (ok deadline, st) p = poll_loop-Ends fuel deadline st p
  enter-Ends fuel (err e, st) p = p

  closed-Ends : (o : Outcome W) → Ends o → Ends (closed out o)
  closed-Ends none p = tt
  closed-Ends (some (r, st)) p = stable.release_keeps _ (stable.stop_keeps st.0 st.1 p)

  -- The part of `run` under `try` and its `finally`.
  pub run-Ends :
      (fuel : ℕ) (duration : Option ℕ) (st : State W)
      → P st
      → Ends (closed out (enter out fuel (start out duration st)))
  run-Ends fuel duration st p =
      closed-Ends _ (enter-Ends fuel (start out duration st) ((start-Keeps duration).keeps st p))
