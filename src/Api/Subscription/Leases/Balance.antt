-- ===== src/Api/Subscription/Leases/Balance.antt =====
-- Every method of a subscription keeps the balance of its leases, and a run leaves none.
use eltdx.Base.{
  ℕ, ◌≡◌, refl, ◌∙◌, Bool, true, false, List, [], ◌∷◌, Option, none, some, arith, inl, inr,
  Bool-cases, if◌then◌else◌, Result-cases,
}
use eltdx.Base.Int.{ℤ}
use eltdx.Base.Effect.{Keeps, ◌>>=◌, ◌>>◌, pure, raise_when, and_then-Keeps}
use eltdx.Protocol.Text.{Text}
use eltdx.Api.Subscription.{Subscription, Outside, GroupApi, own_api, is_not_positive}
use eltdx.Api.Subscription.Run.{
  State, Method, call, read, update, pin_all, pinned, armed, connect_groups, connect_once,
  prepare_connections, release_connections, too_many,
}
use eltdx.Api.Subscription.Loop.{Outcome, run, closed, with_interval}
use eltdx.Api.Subscription.Keeps.{Stable}
use eltdx.Api.Subscription.Keeps.Ends.{RunStable, Ends, run-Ends}
use eltdx.Api.Subscription.Quiet.{Unaffected, quiet-Stable}
use eltdx.Api.Subscription.Leases.{
  LeaseLaws, Accounts, Balanced, hold-Balanced, pin_all-Pinned, unpin_all-held,
}

module _ {W : Type 0} {out : Outside W} {held : W → ℕ} (laws : LeaseLaws out held) (base : ℕ) where
  abbrev Balance : State W → Type 0
  Balance = Balanced held base

  Accounts-Unaffected : Unaffected (Accounts base)
  Accounts-Unaffected = record {
    by_stop = λ s n b p. p;
    by_cursors = λ s n cs p. p;
    by_frames = λ s n m p. p;
    by_renewals = λ s n dues p. p;
  }

  rounds-Balance : Stable out Balance
  rounds-Balance =
      quiet-Stable laws.calls_neutral Accounts-Unaffected
        (λ r s w wanted p. (laws.callback_neutral r w ∙ p.0, p.1))

  -- Pinning the groups, of a subscription that holds no lease.
  pin_groups : List (List Text) → Method W (Unit {0})
  pin_groups groups = do leases ← pin_all out groups []; update (pinned leases)

  pin_groups-Balance :
      (groups : List (List Text)) (s : Subscription) (w : W)
      → s.pin_stack ≡ []
      → Balance (s, w)
      → Balance ((pin_groups groups (s, w)).1)
  unfolding pin_groups ◌>>=◌ update
  pin_groups-Balance groups s w empty p =
      hold-Balanced laws base s (pin_all out groups [] (s, w)) empty
        (pin_all-Pinned laws base s groups [] s w refl refl (rw empty at p.0))

  load_and_pin : List (List Text) → Method W (Unit {0})
  unfolding pin_groups
  load_and_pin groups = do
    codes ← read (λ s. s.codes)
    call (out.load_prices codes)
    pin_groups groups

  load_and_pin-Balance :
      (groups : List (List Text)) (s : Subscription) (w : W)
      → s.pin_stack ≡ []
      → Balance (s, w)
      → Balance ((load_and_pin groups (s, w)).1)
  unfolding load_and_pin ◌>>=◌ ◌>>◌ read call
  load_and_pin-Balance groups s w empty p =
      let after : Balance (s, (out.load_prices s.codes w).1) =
        (laws.calls_neutral.load_quiet s.codes w ∙ p.0, p.1) in
      elim (Result-cases ((out.load_prices s.codes w).0.result)) [
        | inl (_, loaded) ↦ rw loaded (pin_groups-Balance groups _ _ empty after)
        | inr (e, failed) ↦ rw failed after
      ]

  own : Method W (Unit {0})
  own = update (λ s. record s { group_apis = own_api ∷ [] })

  own-Balance :
      (s : Subscription) (w : W) → s.pin_stack ≡ [] → Balance (s, w) → Balance ((own (s, w)).1)
  unfolding own update
  own-Balance s w empty p = (p.0, λ _. empty)

  connect-Balance :
      (b : Bool) (groups : List (List Text)) (s : Subscription) (w : W)
      → s.pin_stack ≡ []
      → Balance (s, w)
      → Balance (((if b then load_and_pin groups else own) (s, w)).1)
  connect-Balance true groups s w empty p = load_and_pin-Balance groups s w empty p
  connect-Balance false groups s w empty p = own-Balance s w empty p

  armed-Keeps : Keeps Balance (update {W = W} armed)
  unfolding update
  armed-Keeps = record { keeps = λ st p. p }

  connect_groups-Balance :
      (groups : List (List Text)) (s : Subscription) (w : W)
      → s.pin_stack ≡ []
      → Balance (s, w)
      → Balance ((connect_groups out groups (s, w)).1)
  unfolding connect_groups ◌>>=◌ ◌>>◌ raise_when load_and_pin pin_groups own
  connect_groups-Balance groups s w empty p = elim (Bool-cases (too_many out groups)) [
    | inl many ↦ rw many p
    | inr few ↦ rw few (
        and_then-Keeps {P = Balance} _ (λ _. update armed)
          (connect-Balance out.has_pin groups s w empty p) (λ _. armed-Keeps))
  ]

  connect_once-Balance :
      (apis : List GroupApi) (s : Subscription) (w : W)
      → (apis ≡ [] → s.pin_stack ≡ [])
      → Balance (s, w)
      → Balance ((connect_once out apis s.groups (s, w)).1)
  unfolding connect_once pure
  connect_once-Balance [] s w empty p = connect_groups-Balance s.groups s w (empty refl) p
  connect_once-Balance (_ ∷ _) s w empty p = p

  prepare-Balance : Keeps Balance (prepare_connections out)
  unfolding prepare_connections ◌>>=◌ read
  prepare-Balance = record { keeps = λ st p. connect_once-Balance st.0.group_apis st.0 st.1 p.1 p }

  release-Balance : (st : State W) → Balance st → Balance (release_connections out st)
  release-Balance st p = (unpin_all-held laws base st.0.pin_stack st.1 p.0 ∙ omega arith, λ _. refl)

  run-Balance : RunStable out Balance
  run-Balance = record {
    rounds = rounds-Balance;
    prepare_keeps = prepare-Balance;
    release_keeps = release-Balance;
    stop_keeps = λ s w p. p;
  }

-- Nothing of a subscription is left: it is stopped, and its connections and leases are gone.
abbrev pub IsReleased : Subscription → Type 0
IsReleased s = (s.stopped ≡ true) × (s.group_apis ≡ []) × (s.next_renew ≡ []) × (s.pin_stack ≡ [])

-- A run that came to its end left this.
abbrev pub LeavesReleased : {W : Type 0} → (W → ℕ) → ℕ → Outcome W → Type 0
LeavesReleased held n none = Unit
LeavesReleased held n (some (r, (s, w))) = IsReleased s × (held w ≡ n)

module _ {W : Type 0} {out : Outside W} {held : W → ℕ} (laws : LeaseLaws out held) where
  closed-released :
      (n : ℕ) (o : Outcome W)
      → Ends (run-Balance laws n) (closed out o)
      → LeavesReleased held n (closed out o)
  closed-released n none p = tt
  closed-released n (some (r, st)) p = ((refl, refl, refl, refl), p.0 ∙ omega arith)

  interval-Balanced :
      (interval : Option ℤ) (s : Subscription) (w : W)
      → s.pin_stack ≡ []
      → Balanced held (held w) (with_interval interval s, w)
  interval-Balanced none s w empty = (rw empty (omega arith), λ _. empty)
  interval-Balanced (some t) s w empty = (rw empty (omega arith), λ _. empty)

  -- From a subscription without leases, a run that comes to an end, by `stop()`, at its
  -- deadline or by any exception, leaves the subscription stopped and without connections, and the
  -- pool with as many leased connections as it found.
  pub run-LeavesReleased :
      (fuel : ℕ) (duration : Option ℕ) (interval : Option ℤ) (s : Subscription) (w : W)
      → is_not_positive interval ≡ false
      → s.pin_stack ≡ []
      → LeavesReleased held (held w) (run out fuel duration interval (s, w))
  unfolding run
  run-LeavesReleased fuel duration interval s w valid no_leases = rw valid (
      closed-released (held w) _ (
        run-Ends (run-Balance laws (held w)) fuel duration (with_interval interval s, w)
          (interval-Balanced interval s w no_leases)))
