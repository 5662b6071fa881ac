-- ===== src/Api/Subscription/Rounds.antt =====
-- A round of a subscription, `run_once` and `_dispatch` of src/eltdx/api/subscription.py.
use eltdx.Base.{
  ℕ, zero, suc, ◌+◌, ◌-◌, List, [], ◌∷◌, length, Option, none, some, Result, ok, err, leb,
  if◌then◌else◌, Error,
}
use eltdx.Base.Int.{ℤ}
use eltdx.Base.Effect.{◌>>=◌, ◌>>◌, pure, raise, attempt}
use eltdx.Api.Subscription.{Record, Outside, is_wanted}
use eltdx.Api.Subscription.Run.{
  Method, at_most, call, chosen_timeout, clock, due_at, frame_records, least, lift, read,
  refresh_group, refreshed, update,
}

module _ {W : Type 0} (out : Outside W) where
  -- `if self._on_error is None: raise` and otherwise the handler
  unfoldable pub handle_error : Error → Method W (Unit {0})
  handle_error e = elim out.on_error [ none ↦ raise e | some on_error ↦ call (on_error e) ]

  unfoldable pub handled : Result (Unit {0}) → Method W (Unit {0})
  handled (ok _) = pure tt
  handled (err e) = handle_error e

  -- One record that is wanted.
  unfoldable pub hand_out : Record → Method W (Unit {0})
  hand_out r = do
    update (λ s. record s { dispatched = suc s.dispatched })
    outcome ← attempt (call (out.callback r))
    handled outcome

  unfoldable pub dispatch_each : List Record → Method W ℕ
  dispatch_each [] = pure 0
  dispatch_each (r ∷ records) =
      let rest = dispatch_each records in
      do
        wanted ← read (λ s. is_wanted s r)
        if wanted then (do hand_out r; count ← rest; pure (suc count)) else rest

  -- `_dispatch`
  unfoldable pub dispatch : List Record → Method W ℕ
  dispatch records = do update (refreshed records); dispatch_each records

  unfoldable pub renew : ℕ → ℕ → Method W ℕ
  renew index dispatched = do
    outcome ← attempt (refresh_group out index)
    elim outcome [
      | err e ↦ do handle_error e; pure dispatched
      | ok records ↦ do count ← dispatch records; pure (dispatched + count)
    ]

  -- One round of the loop over `self._next_renew`.
  unfoldable pub renew_due : ℕ → ℕ → Method W ℕ
  renew_due index dispatched = do
    due ← read (due_at index)
    elim due [
      | none ↦ pure dispatched
      | some t ↦ do now ← clock out; if leb t now then renew index dispatched else pure dispatched
    ]

  unfoldable pub renew_loop : ℕ → ℕ → ℕ → Method W ℕ
  renew_loop zero index dispatched = pure dispatched
  renew_loop (suc left) index dispatched = do
    stopped ← read (λ s. s.stopped)
    if stopped
        then pure dispatched
        else (do count ← renew_due index dispatched; renew_loop left (suc index) count)

  unfoldable pub effective_timeout : Option ℕ → Method W (Option ℕ)
  effective_timeout timeout = do
    due ← read (λ s. least s.next_renew)
    elim due [ none ↦ pure timeout | some t ↦ do now ← clock out; pure (at_most timeout (t - now)) ]

  -- What is done with the outcome of `poll_push`.
  unfoldable pub polled : ℕ → Result (Option (List Record)) → Method W ℕ
  polled dispatched (err e) = do handle_error e; pure dispatched
  polled dispatched (ok frame) = do
    update (λ s. record s { frames = suc s.frames })
    count ← dispatch (frame_records frame)
    pure (dispatched + count)

  unfoldable pub poll_frame : Option ℕ → ℕ → Method W ℕ
  poll_frame timeout dispatched = do
    effective ← effective_timeout timeout
    outcome ← attempt (call (out.poll_push effective))
    polled dispatched outcome

  unfoldable pub poll_open : Option ℤ → Method W ℕ
  poll_open timeout = do
    choice ← read (chosen_timeout timeout)
    effective ← lift choice
    dues ← read (λ s. length s.next_renew)
    dispatched ← renew_loop dues 0 0
    stopped ← read (λ s. s.stopped)
    if stopped then pure dispatched else poll_frame effective dispatched

  -- `run_once`
  unfoldable pub run_once : Option ℤ → Method W ℕ
  run_once timeout = do
    stopped ← read (λ s. s.stopped)
    if stopped then pure 0 else poll_open timeout
