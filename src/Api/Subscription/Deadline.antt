-- ===== src/Api/Subscription/Deadline.antt =====
-- A run with a deadline comes to its end.
pub mod End
use eltdx.Base.{
  ℕ, zero, suc, ◌+◌, ◌≤◌, ◌<◌, ◌≡◌, refl, Bool, true, false, ◌||◌, List, Option, none, some, Result,
  ok, err, Error, arith, Bool-cases, inl, inr, ◌⊎◌, if◌then◌else◌, leb, value_error,
}
use eltdx.Base.Int.{ℤ}
use eltdx.Base.Effect.{
  Effect, Keeps, Leads, WhenOk, Keeps-Leads, bind-Leads, and_then, attempt, pure, ◌>>=◌, ◌>>◌,
  attempt-Keeps, pure-Keeps, bind-Keeps,
}
use eltdx.Protocol.Text.{Text}
use eltdx.Api.Subscription.{
  Subscription, Outside, Record, GroupApi, Call, is_wanted, is_not_positive,
}
use eltdx.Api.Subscription.Run.{State, Method, call, read, update, clock, renew_in, close, activate}
use eltdx.Api.Subscription.Rounds.{
  run_once, poll_open, poll_frame, effective_timeout, handle_error, dispatch,
}
use eltdx.Api.Subscription.Loop.{
  Outcome, run, enter, closed, start, with_interval, poll_loop, round, go_on, is_reached, limited,
  as_timeout, deadline_of,
}
use eltdx.Api.Subscription.Keeps.{
  Stable, read-Keeps, lift-Keeps, renew_loop-Keeps, run_once-Keeps, effective_timeout-Keeps,
  after_poll-Keeps,
}

-- The clock never goes back, and a poll takes at least one tick of it.
pub record ClockLaws {W : Type 0} (out : Outside W) (time : W → ℕ) : Type 0 where
  pub clock_reads : (w : W) → (out.monotonic w).0 ≡ time w
  pub clock_later : (w : W) → time w ≤ time ((out.monotonic w).1)
  pub refresh_later :
      (api : GroupApi) (codes : List Text) (known : List (Text × ℕ)) (w : W)
      → time w ≤ time ((out.refresh api codes known w).1)
  pub poll_later : (timeout : Option ℕ) (w : W) → time w < time ((out.poll_push timeout w).1)
  pub callback_later : (r : Record) (w : W) → time w ≤ time ((out.callback r w).1)
  pub error_later :
      (g : Error → Call W (Unit {0})) (e : Error) (w : W)
      → out.on_error ≡ some g
      → time w ≤ time ((g e w).1)

module _ {W : Type 0} {out : Outside W} {time : W → ℕ} (laws : ClockLaws out time) where
  abbrev From : ℕ → State W → Type 0
  From t st = t ≤ time st.1

  later-Keeps :
      {A : Type 0} (t : ℕ) (f : Call W A)
      → ((w : W) → time w ≤ time ((f w).1))
      → Keeps (From t) (call f)
  unfolding call
  later-Keeps t f later = record { keeps = λ st p. omega (arith, p, later st.1) }

  renew_in-From :
      (t : ℕ) (interval : Option ℕ) (index : ℕ) (st : State W)
      → From t st
      → From t (renew_in out interval index st)
  renew_in-From t none index st p = p
  renew_in-From t (some i) index st p = omega (arith, p, laws.clock_later st.1)

  From-Stable : (t : ℕ) → Stable out (From t)
  unfolding call update clock
  From-Stable t = record {
    refresh_keeps = λ api codes known. later-Keeps t _ (laws.refresh_later api codes known);
    poll_keeps = λ timeout. later-Keeps t _ (λ w. omega (arith, laws.poll_later timeout w));
    callback_keeps = λ r s w wanted p. omega (arith, p, laws.callback_later r w);
    error_keeps = λ g e is_set. later-Keeps t _ (λ w. laws.error_later g e w is_set);
    clock_keeps = record { keeps = λ st p. omega (arith, p, laws.clock_later st.1) };
    remember_keeps = λ records. record { keeps = λ st p. p };
    frame_keeps = record { keeps = λ st p. p };
    renew_keeps = λ index st p. renew_in-From t st.0.reactivate_interval index st p;
  }

  poll-Leads :
      (t : ℕ) (timeout : Option ℕ)
      → Leads (From t) (From (suc t)) (attempt (call (out.poll_push timeout)))
  unfolding attempt call
  poll-Leads t timeout = record { leads = λ st p. omega (arith, p, laws.poll_later timeout st.1) }

  poll_frame-Leads :
      (t : ℕ) (timeout : Option ℕ) (n : ℕ)
      → Leads (From t) (From (suc t)) (poll_frame out timeout n)
  unfolding poll_frame
  poll_frame-Leads t timeout n =
      bind-Leads (Keeps-Leads (effective_timeout-Keeps (From-Stable t) timeout) (λ st p. p))
        (λ effective.
          bind-Leads (poll-Leads t effective)
            (λ outcome. Keeps-Leads (after_poll-Keeps (From-Stable (suc t)) n outcome) (λ st p. p)))

  -- The subscription was stopped, or the clock has gone on.
  abbrev pub GoesOn : ℕ → State W → Type 0
  GoesOn t st = (st.0.stopped ≡ true) ⊎ (suc t ≤ time st.1)

  if-Leads :
      {A : Type 0} (t : ℕ) (b : Bool) (a : A) (m : Method W A) (st : State W)
      → (b ≡ true → GoesOn t st)
      → WhenOk (GoesOn t) (m st)
      → WhenOk (GoesOn t) ((if b then pure a else m) st)
  unfolding pure
  if-Leads t true a m st halted q = halted refl
  if-Leads t false a m st halted q = q

  unless_stopped :
      {A : Type 0} (t : ℕ) (a : A) (m : Method W A)
      → Leads (From t) (GoesOn t) m
      → Leads
          (From t)
          (GoesOn t)
          (do stopped ← read (λ s. s.stopped); if stopped then pure a else m)
  unfolding read ◌>>=◌
  unless_stopped t a m lm = record {
    leads = λ st p. if-Leads t st.0.stopped a m st (λ e. inl e) (lm.leads st p);
  }

  poll_frame-GoesOn :
      (t : ℕ) (timeout : Option ℕ) (n : ℕ) → Leads (From t) (GoesOn t) (poll_frame out timeout n)
  poll_frame-GoesOn t timeout n = record {
    leads =
        λ st p. went_on (poll_frame out timeout n st) ((poll_frame-Leads t timeout n).leads st p);
  }
    where
      went_on : (r : Result ℕ × State W) → WhenOk (From (suc t)) r → WhenOk (GoesOn t) r
      went_on (ok a, s) q = inr q
      went_on (err e, s) q = tt

  run_once-GoesOn : (t : ℕ) (timeout : Option ℤ) → Leads (From t) (GoesOn t) (run_once out timeout)
  unfolding run_once poll_open
  run_once-GoesOn t timeout = unless_stopped t 0 _ (
      let from = From-Stable t in
      bind-Leads (Keeps-Leads (read-Keeps _) (λ st p. p)) (λ choice.
        bind-Leads (Keeps-Leads (lift-Keeps choice) (λ st p. p)) (λ effective.
          bind-Leads (Keeps-Leads (read-Keeps _) (λ st p. p)) (λ dues.
            bind-Leads (Keeps-Leads (renew_loop-Keeps from dues 0 0) (λ st p. p))
              (λ n. unless_stopped t n _ (poll_frame-GoesOn t effective n))))))

  -- The loop goes on only before the deadline, and later than it was.
  abbrev pub Rounds : ℕ → ℕ → Result Bool × State W → Type 0
  Rounds t deadline (ok true, st) = Unit
  Rounds t deadline (ok false, st) =
      (st.0.stopped ≡ true) ⊎ ((suc t ≤ time st.1) × (suc t < deadline))
  Rounds t deadline (err e, st) = Unit

  reached-Rounds :
      (t deadline : ℕ) (st : State W)
      → GoesOn t st
      → Rounds t deadline (is_reached out (some deadline) st)
  unfolding is_reached clock pure ◌>>=◌
  reached-Rounds t deadline st q = elim (Bool-cases (leb deadline ((out.monotonic st.1).0))) [
    | inl reached ↦ rw reached tt
    | inr before ↦ rw before (elim q [
      | inl halted ↦ inl halted
      | inr later ↦
          let reads = laws.clock_reads st.1 in
          let early : (out.monotonic st.1).0 < deadline = ground arith in
          inr (omega (arith, later, laws.clock_later st.1), omega (arith, later, reads, early))
    ])
  ]

  then_reached :
      (t deadline : ℕ) (r : Result ℕ × State W)
      → WhenOk (GoesOn t) r
      → Rounds t deadline (and_then r (λ _. is_reached out (some deadline)))
  then_reached t deadline (ok n, st) q = reached-Rounds t deadline st q
  then_reached t deadline (err e, st) q = tt

  pub round-Rounds :
      (deadline : ℕ) (st : State W) → Rounds (time st.1) deadline (round out (some deadline) st)
  unfolding round read limited clock pure ◌>>=◌ ◌>>◌
  round-Rounds deadline st =
      let now = out.monotonic st.1 in
      then_reached (time st.1) deadline _
        ((run_once-GoesOn (time st.1) _).leads (st.0, now.1) (laws.clock_later st.1))
