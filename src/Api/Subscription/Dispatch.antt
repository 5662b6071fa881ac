-- ===== src/Api/Subscription/Dispatch.antt =====
-- What reaches the callback of a subscription.
use eltdx.Base.{
  ℕ, suc, ◌+◌, ◌≡◌, refl, sym, ◌∙◌, Bool, true, false, ◌||◌, List, [], ◌∷◌, ◌++◌, length,
  length-append, append-nil, append_assoc, Option, none, some, Result, ok, err, arith, All,
  All-append, Bool-cases, inl, inr, if◌then◌else◌,
}
use eltdx.Base.Int.{ℤ}
use eltdx.Base.Effect.{◌>>=◌, ◌>>◌, pure, attempt, and_then}
use eltdx.Protocol.Text.{Text}
use eltdx.Api.Subscription.{
  Subscription, Outside, Record, wants, is_wanted, is_not_positive, new_subscription,
}
use eltdx.Api.Subscription.Run.{State, call, read, update, refreshed}
use eltdx.Api.Subscription.Rounds.{hand_out, handled, dispatch_each, dispatch}
use eltdx.Api.Subscription.Loop.{Outcome, run, with_interval}
use eltdx.Api.Subscription.Keeps.Ends.{RunStable, Ends, run-Ends}
use eltdx.Api.Subscription.Quiet.{QuietRun, Unconnected, Reads, quiet-Stable, quiet-RunStable}

-- The records that the callback was called with, in order.
pub record CallbackLog {W : Type 0} (out : Outside W) (called : W → List Record) : Type 0 where
  pub callback_logs : (r : Record) (w : W) → called ((out.callback r w).1) ≡ called w ++ r ∷ []
  pub calls_quiet : QuietRun out called

-- Only records that the subscription asks for were handed out, and `dispatched` counts them.
abbrev pub Logged : Bool → List Text → Subscription → List Record → Type 0
Logged filter_codes full s log =
    (s.filter_codes ≡ filter_codes)
    × (s.codes ≡ full)
    × All (λ r. wants filter_codes full r ≡ true) log
    × (s.dispatched ≡ length log)

logged-Unconnected :
    (filter_codes : Bool) (full : List Text) → Unconnected (Logged filter_codes full)
logged-Unconnected filter_codes full = record {
  by_rounds = record {
    by_stop = λ s log b p. p;
    by_cursors = λ s log cs p. p;
    by_frames = λ s log n p. p;
    by_renewals = λ s log dues p. p;
  };
  by_connections = λ s log apis leases p. p;
}

module _ {W : Type 0} {out : Outside W} {called : W → List Record} (log : CallbackLog out called)
    (filter_codes : Bool) (full : List Text) where
  handed-Logged :
      (r : Record) (s : Subscription) (w : W)
      → is_wanted s r ≡ true
      → Logged filter_codes full s (called w)
      → Logged filter_codes full
          (record s { dispatched = suc s.dispatched })
          (called ((out.callback r w).1))
  handed-Logged r s w wanted (same_filter, same_codes, subscribed, counted) =
      let asked : wants filter_codes full r ≡ true =
        rw (← same_filter) (rw (← same_codes) wanted) in
      rw (log.callback_logs r w) (
        same_filter,
        same_codes,
        All-append _ (called w) (r ∷ []) subscribed (asked, tt),
        omega (arith, counted, length-append (called w) (r ∷ [])),
      )

  run-Logged : RunStable out (Reads called (Logged filter_codes full))
  run-Logged =
      let free = logged-Unconnected filter_codes full in
      quiet-RunStable log.calls_quiet free
        (quiet-Stable log.calls_quiet.rounds_quiet free.by_rounds handed-Logged)

-- The log that a run left, and the count.
abbrev pub LeavesLogged : {W : Type 0} → (W → List Record) → Bool → List Text → Outcome W → Type 0
LeavesLogged called filter_codes full none = Unit
LeavesLogged called filter_codes full (some (r, (s, w))) =
    All (λ x. wants filter_codes full x ≡ true) (called w) × (s.dispatched ≡ length (called w))

interval-Logged :
    (interval : Option ℤ) (full : List Text) (filter_codes : Bool) (s : Subscription)
    (l : List Record)
    → Logged filter_codes full s l
    → Logged filter_codes full (with_interval interval s) l
interval-Logged none full filter_codes s l p = p
interval-Logged (some t) full filter_codes s l p = p

module _ {W : Type 0} {out : Outside W} {called : W → List Record}
    (log : CallbackLog out called) where
  if-LeavesLogged :
      (b : Bool) (f : Bool) (full : List Text) (x y : Outcome W)
      → LeavesLogged called f full x
      → LeavesLogged called f full y
      → LeavesLogged called f full (if b then x else y)
  if-LeavesLogged true f full x y p q = p
  if-LeavesLogged false f full x y p q = q

  Ends-LeavesLogged :
      (f : Bool) (full : List Text) (o : Outcome W)
      → Ends (run-Logged log f full) o
      → LeavesLogged called f full o
  Ends-LeavesLogged f full none p = tt
  Ends-LeavesLogged f full (some (r, st)) (same_filter, same_codes, subscribed, counted) =
      (subscribed, counted)

  -- A run of a new subscription, whatever calls raise and whenever it ends, has handed its callback
  -- only records of the subscribed codes (any record where `filter_codes` is off), and `dispatched`
  -- is the number of those calls.
  pub run-LeavesLogged :
      (full : List Text) (timeout : Option ℕ) (filter_codes : Bool) (renewal : Option ℕ) (fuel : ℕ)
      (duration : Option ℕ) (interval : Option ℤ) (w : W)
      → called w ≡ []
      → LeavesLogged called filter_codes full
          (run out fuel duration interval (new_subscription full timeout filter_codes renewal, w))
  unfolding run
  run-LeavesLogged full timeout filter_codes renewal fuel duration interval w fresh =
      let s : Subscription = new_subscription full timeout filter_codes renewal in
      let begins : Logged filter_codes full s (called w) = rw fresh (refl, refl, tt, refl) in
      if-LeavesLogged (is_not_positive interval) filter_codes full _ _ (begins.2, begins.3)
        (Ends-LeavesLogged filter_codes full _ (
          run-Ends (run-Logged log filter_codes full) fuel duration (with_interval interval s, w)
            (interval-Logged interval full filter_codes s (called w) begins)))

-- The records that `_dispatch` hands out.
abbrev pub wanted_of : Bool → List Text → List Record → List Record
wanted_of f full [] = []
wanted_of f full (r ∷ records) =
    let rest = wanted_of f full records in if wants f full r then r ∷ rest else rest

-- The count, and the log behind it.
abbrev pub Dispatched :
    {W : Type 0} → (W → List Record) → Subscription → W → List Record → Result ℕ × State W → Type 0
Dispatched called s w wanted (result, (s', w')) =
    (result ≡ ok (length wanted))
    × (called w' ≡ called w ++ wanted)
    × (s'.dispatched ≡ s.dispatched + length wanted)

module _ {W : Type 0} {out : Outside W} {called : W → List Record} (log : CallbackLog out called)
    (returns : (r : Record) (w : W) → (out.callback r w).0.result ≡ ok tt) where
  -- One more record before them.
  one_more :
      (r : Record) (wanted : List Record) (s s1 : Subscription) (w w1 : W) (x : Result ℕ × State W)
      → called w1 ≡ called w ++ r ∷ []
      → s1.dispatched ≡ suc s.dispatched
      → Dispatched called s1 w1 wanted x
      → Dispatched called s w (r ∷ wanted) (and_then x (λ count. pure (suc count)))
  unfolding pure
  one_more r wanted s s1 w w1 (ok n, (s', w')) logged counted (result, log', count) =
      let same : n ≡ length wanted = ground arith in
      (
        rw same refl,
        log' ∙ rw logged (append_assoc (called w) (r ∷ []) wanted),
        omega (arith, count, counted),
      )
  one_more r wanted s s1 w w1 (err e, st) logged counted (result, log', count) =
      absurd (ground (arith, result))

  dispatch_each-Dispatched :
      (records : List Record) (s : Subscription) (w : W)
      → Dispatched called s w
          (wanted_of s.filter_codes s.codes records)
          (dispatch_each out records (s, w))
  unfolding dispatch_each hand_out handled call update attempt ◌>>=◌ ◌>>◌ read pure
  dispatch_each-Dispatched [] s w = (refl, sym (append-nil (called w)), omega arith)
  dispatch_each-Dispatched (r ∷ records) s w =
      let s1 : Subscription = record s {
        dispatched = suc s.dispatched;
        stopped = s.stopped || (out.callback r w).0.stops;
      } in
      elim (Bool-cases (is_wanted s r)) [
        | inl asked ↦ rw asked (
            rw (returns r w) (
              one_more r (wanted_of s.filter_codes s.codes records) s s1 w _ _
                (log.callback_logs r w) refl (dispatch_each-Dispatched records s1 _)))
        | inr other ↦ rw other (dispatch_each-Dispatched records s w)
      ]

  -- Where the callback does not raise, `_dispatch` hands out all the records that the subscription
  -- asks for and no others, in their order, and returns their number.
  pub dispatch-Dispatched :
      (records : List Record) (s : Subscription) (w : W)
      → Dispatched called s w
          (wanted_of s.filter_codes s.codes records)
          (dispatch out records (s, w))
  unfolding dispatch update ◌>>◌ ◌>>=◌
  dispatch-Dispatched records s w = dispatch_each-Dispatched records (refreshed records s) w
