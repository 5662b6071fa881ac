-- ===== src/Api/Subscription/Keeps.antt =====
-- Properties of the subscription and of the outside that every method keeps, because each of their
-- steps does.
pub mod Ends
use eltdx.Base.{
  ℕ, zero, suc, ◌+◌, ◌++◌, ◌≡◌, Bool, true, false, List, [], ◌∷◌, Option, none, some, Result, ok,
  err, if◌then◌else◌, Error, Bool-cases, Option-cases, inl, inr, length, leb,
}
use eltdx.Base.Int.{ℤ}
use eltdx.Base.Effect.{
  Keeps, bind-Keeps, result-Keeps, option-Keeps, then-Keeps, raise-Keeps, modify-Keeps, if-Keeps,
  attempt-Keeps, finally-Keeps, pure-Keeps, pure, attempt, ◌>>=◌, ◌>>◌,
}
use eltdx.Protocol.Text.{Text}
use eltdx.Api.Subscription.{Subscription, Outside, Record, Call, GroupApi, is_wanted}
use eltdx.Api.Subscription.Loop.{
  limited, is_reached, round, deadline_of, start, poll_loop, enter, go_on, closed, Outcome,
}
use eltdx.Api.Subscription.Run.{
  State, read, update, clock, activate, call, refresh_group, refresh_all, prepare_connections,
  release_connections, stop, refreshed, lift, renew_at, elem_at, frame_records,
}
use eltdx.Api.Subscription.Rounds.{
  run_once, dispatch, dispatch_each, hand_out, handle_error, handled, renew, renew_due, renew_loop,
  poll_frame, polled, poll_open, effective_timeout,
}

-- The steps that the rounds of a subscription consist of keep a property.
pub record Stable {W : Type 0} (out : Outside W) (P : State W → Type 0) : Type 0 where
  pub refresh_keeps :
      (api : GroupApi) (codes : List Text) (known : List (Text × ℕ))
      → Keeps P (call (out.refresh api codes known))
  pub poll_keeps : (timeout : Option ℕ) → Keeps P (call (out.poll_push timeout))
  pub callback_keeps :
      (r : Record) (s : Subscription) (w : W)
      → is_wanted s r ≡ true
      → P (s, w)
      → P ((call (out.callback r) (record s { dispatched = suc s.dispatched }, w)).1)
  pub error_keeps :
      (f : Error → Call W (Unit {0})) (e : Error) → out.on_error ≡ some f → Keeps P (call (f e))
  pub clock_keeps : Keeps P (clock out)
  pub remember_keeps : (records : List Record) → Keeps P (update (refreshed records))
  pub frame_keeps : Keeps P (update {W = W} (λ s. record s { frames = suc s.frames }))
  pub renew_keeps : (index : ℕ) (st : State W) → P st → P (renew_at out index st)

module _ {W : Type 0} {P : State W → Type 0} where
  pub read-Keeps : {A : Type 0} (f : Subscription → A) → Keeps P (read {W = W} f)
  unfolding read
  read-Keeps f = record { keeps = λ s p. p }

  pub lift-Keeps : {A : Type 0} (r : Result A) → Keeps P (lift {W = W} r)
  unfolding lift
  lift-Keeps r = record { keeps = λ s p. p }

module _ {W : Type 0} {out : Outside W} {P : State W → Type 0} (stable : Stable out P) where
  handle_error-Keeps : (e : Error) → Keeps P (handle_error out e)
  unfolding handle_error
  handle_error-Keeps e = elim (Option-cases out.on_error) [
    | inl none_set ↦ rw none_set (raise-Keeps e)
    | inr (f, is_set) ↦ rw is_set (stable.error_keeps f e is_set)
  ]

  handled-Keeps : (r : Result (Unit {0})) → Keeps P (handled out r)
  unfolding handled
  handled-Keeps (ok _) = pure-Keeps tt
  handled-Keeps (err e) = handle_error-Keeps e

  after_callback :
      (r : Record) (records : List Record)
      → Keeps P (dispatch_each out records)
      → (s : Subscription) (w : W) → is_wanted s r ≡ true
      → P (s, w)
      → P (((do hand_out out r; count ← dispatch_each out records; pure (suc count)) (s, w)).1)
  unfolding hand_out ◌>>=◌ ◌>>◌ attempt update
  after_callback r records rest s w wanted p =
      (bind-Keeps (handled-Keeps _) (λ _. bind-Keeps rest (λ n. pure-Keeps (suc n)))).keeps _
        (stable.callback_keeps r s w wanted p)

  dispatch_each-Keeps : (records : List Record) → Keeps P (dispatch_each out records)
  unfolding dispatch_each ◌>>=◌ read
  dispatch_each-Keeps [] = pure-Keeps 0
  dispatch_each-Keeps (r ∷ records) =
      let rest = dispatch_each-Keeps records in
      record {
        keeps = λ st p. elim (Bool-cases (is_wanted st.0 r)) [
          | inl wanted ↦ rw wanted (after_callback r records rest st.0 st.1 wanted p)
          | inr other ↦ rw other (rest.keeps st p)
        ];
      }

  pub dispatch-Keeps : (records : List Record) → Keeps P (dispatch out records)
  unfolding dispatch
  dispatch-Keeps records = then-Keeps (stable.remember_keeps records) (dispatch_each-Keeps records)

  pub refresh_group-Keeps : (index : ℕ) → Keeps P (refresh_group out index)
  unfolding refresh_group
  refresh_group-Keeps index = bind-Keeps (read-Keeps _) (λ groups.
      bind-Keeps (lift-Keeps (elem_at index groups)) (λ codes.
        finally-Keeps _ (stable.renew_keeps index) (
          bind-Keeps (read-Keeps _) (λ apis. bind-Keeps (lift-Keeps (elem_at index apis)) (λ api.
            bind-Keeps (read-Keeps _) (λ known.
              bind-Keeps (stable.refresh_keeps api codes known)
                (λ records. then-Keeps (stable.remember_keeps records) (pure-Keeps records))))))))

  renew-Keeps : (index dispatched : ℕ) → Keeps P (renew out index dispatched)
  unfolding renew
  renew-Keeps index dispatched = bind-Keeps (attempt-Keeps (refresh_group-Keeps index)) (λ outcome.
      result-Keeps outcome
        (λ records. bind-Keeps (dispatch-Keeps records) (λ n. pure-Keeps (dispatched + n)))
        (λ e. then-Keeps (handle_error-Keeps e) (pure-Keeps dispatched)))

  renew_due-Keeps : (index dispatched : ℕ) → Keeps P (renew_due out index dispatched)
  unfolding renew_due
  renew_due-Keeps index dispatched = bind-Keeps (read-Keeps _) (λ due.
      option-Keeps due
        (λ t.
          bind-Keeps stable.clock_keeps
            (λ now. if-Keeps (leb t now) (renew-Keeps index dispatched) (pure-Keeps dispatched)))
        (pure-Keeps dispatched))

  pub renew_loop-Keeps :
      (left index dispatched : ℕ) → Keeps P (renew_loop out left index dispatched)
  unfolding renew_loop
  renew_loop-Keeps zero index dispatched = pure-Keeps dispatched
  renew_loop-Keeps (suc left) index dispatched = bind-Keeps (read-Keeps _) (λ stopped.
      if-Keeps stopped (pure-Keeps dispatched) (
        bind-Keeps (renew_due-Keeps index dispatched)
          (λ count. renew_loop-Keeps left (suc index) count)))

  pub effective_timeout-Keeps : (timeout : Option ℕ) → Keeps P (effective_timeout out timeout)
  unfolding effective_timeout
  effective_timeout-Keeps timeout = bind-Keeps (read-Keeps _) (λ due.
      option-Keeps due (λ t. bind-Keeps stable.clock_keeps (λ now. pure-Keeps _))
        (pure-Keeps timeout))

  pub after_poll-Keeps :
      (n : ℕ) (outcome : Result (Option (List Record))) → Keeps P (polled out n outcome)
  unfolding polled
  after_poll-Keeps n (ok frame) =
      then-Keeps stable.frame_keeps
        (bind-Keeps (dispatch-Keeps (frame_records frame)) (λ count. pure-Keeps (n + count)))
  after_poll-Keeps n (err e) = then-Keeps (handle_error-Keeps e) (pure-Keeps n)

  poll_frame-Keeps : (timeout : Option ℕ) (n : ℕ) → Keeps P (poll_frame out timeout n)
  unfolding poll_frame
  poll_frame-Keeps timeout n = bind-Keeps (effective_timeout-Keeps timeout) (λ effective.
      bind-Keeps (attempt-Keeps (stable.poll_keeps effective))
        (λ outcome. after_poll-Keeps n outcome))

  -- A round keeps what its steps keep, whether it raises or not.
  pub run_once-Keeps : (timeout : Option ℤ) → Keeps P (run_once out timeout)
  unfolding run_once poll_open
  run_once-Keeps timeout = bind-Keeps (read-Keeps _) (λ stopped. if-Keeps stopped (pure-Keeps 0) (
      bind-Keeps (read-Keeps _) (λ choice. bind-Keeps (lift-Keeps choice) (λ effective.
        bind-Keeps (read-Keeps _) (λ dues. bind-Keeps (renew_loop-Keeps dues 0 0) (λ n.
          bind-Keeps (read-Keeps _)
            (λ stopped'. if-Keeps stopped' (pure-Keeps n) (poll_frame-Keeps effective n))))))))
