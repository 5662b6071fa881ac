-- ===== src/Api/Subscription/Quiet.antt =====
-- A reading of the outside's state that the calls of a subscription leave alone, but for the
-- callback and the leases.
use eltdx.Base.{ℕ, suc, ◌≡◌, refl, ◌∙◌, Bool, true, List, [], ◌∷◌, Option, none, some, Error}
use eltdx.Base.Effect.{
  Keeps, pure-Keeps, bind-Keeps, then-Keeps, attempt-Keeps, result-Keeps, modify-Keeps, raise-Keeps,
  raise_when-Keeps, if-Keeps,
}
use eltdx.Protocol.Text.{Text}
use eltdx.Api.Subscription.{Subscription, Outside, Record, GroupApi, Call, is_wanted}
use eltdx.Api.Subscription.Run.{
  State, call, update, clock, renew_in, pin_all, unpin_all, pinned, armed, connect_groups,
  connect_once, prepare_connections,
}
use eltdx.Api.Subscription.Keeps.{Stable, read-Keeps}
use eltdx.Api.Subscription.Keeps.Ends.{RunStable}

pub record Quiet {W X : Type 0} (out : Outside W) (f : W → X) : Type 0 where
  pub refresh_quiet :
      (api : GroupApi) (codes : List Text) (known : List (Text × ℕ)) (w : W)
      → f ((out.refresh api codes known w).1) ≡ f w
  pub poll_quiet : (timeout : Option ℕ) (w : W) → f ((out.poll_push timeout w).1) ≡ f w
  pub error_quiet :
      (g : Error → Call W (Unit {0})) (e : Error) (w : W)
      → out.on_error ≡ some g
      → f ((g e w).1) ≡ f w
  pub load_quiet : (codes : List Text) (w : W) → f ((out.load_prices codes w).1) ≡ f w
  pub clock_quiet : (w : W) → f ((out.monotonic w).1) ≡ f w

-- A relation of the subscription and such a reading that is not about the fields that the rounds
-- set.
pub record Unaffected {X : Type 0} (R : Subscription → X → Type 0) : Type 0 where
  pub by_stop : (s : Subscription) (x : X) (b : Bool) → R s x → R (record s { stopped = b }) x
  pub by_cursors :
      (s : Subscription) (x : X) (cs : List (Text × ℕ)) → R s x → R (record s { cursors = cs }) x
  pub by_frames : (s : Subscription) (x : X) (n : ℕ) → R s x → R (record s { frames = n }) x
  pub by_renewals :
      (s : Subscription) (x : X) (dues : List (Option ℕ))
      → R s x
      → R (record s { next_renew = dues }) x

-- The relation on the state.
abbrev pub Reads : {W X : Type 0} → (W → X) → (Subscription → X → Type 0) → State W → Type 0
Reads f R st = R st.0 (f st.1)

module _ {W X : Type 0} {out : Outside W} {f : W → X} {R : Subscription → X → Type 0}
    (quiet : Quiet out f) (free : Unaffected R) where
  pub call-Keeps :
      {A : Type 0} (g : Call W A) → ((w : W) → f ((g w).1) ≡ f w) → Keeps (Reads f R) (call g)
  unfolding call
  call-Keeps g same = record { keeps = λ st p. rw (same st.1) (free.by_stop st.0 (f st.1) _ p) }

  renew_in-Reads :
      (interval : Option ℕ) (index : ℕ) (st : State W)
      → Reads f R st
      → Reads f R (renew_in out interval index st)
  renew_in-Reads none index st p = free.by_renewals st.0 (f st.1) _ p
  renew_in-Reads (some interval) index st p =
      rw (quiet.clock_quiet st.1) (free.by_renewals st.0 (f st.1) _ p)

  pub quiet-Stable :
      ((r : Record) (s : Subscription) (w : W)
        → is_wanted s r ≡ true
        → R s (f w)
        → R (record s { dispatched = suc s.dispatched }) (f ((out.callback r w).1)))
      → Stable out (Reads f R)
  unfolding call update clock
  quiet-Stable on_callback = record {
    refresh_keeps = λ api codes known. call-Keeps _ (quiet.refresh_quiet api codes known);
    poll_keeps = λ timeout. call-Keeps _ (quiet.poll_quiet timeout);
    callback_keeps = λ r s w wanted p. free.by_stop _ _ _ (on_callback r s w wanted p);
    error_keeps = λ g e is_set. call-Keeps _ (λ w. quiet.error_quiet g e w is_set);
    clock_keeps = record { keeps = λ st p. rw (quiet.clock_quiet st.1) p };
    remember_keeps = λ records. record { keeps = λ st p. free.by_cursors st.0 (f st.1) _ p };
    frame_keeps = record { keeps = λ st p. free.by_frames st.0 (f st.1) _ p };
    renew_keeps = λ index st p. renew_in-Reads st.0.reactivate_interval index st p;
  }

-- The other steps of a run, of a reading that the leases leave alone too, and of a relation that is
-- not about the connections.
pub record QuietRun {W X : Type 0} (out : Outside W) (f : W → X) : Type 0 where
  pub rounds_quiet : Quiet out f
  pub pin_quiet : (w : W) → f ((out.pin w).1) ≡ f w
  pub unpin_quiet : (lease : ℕ) (w : W) → f (out.unpin lease w) ≡ f w

pub record Unconnected {X : Type 0} (R : Subscription → X → Type 0) : Type 0 where
  pub by_rounds : Unaffected R
  pub by_connections :
      (s : Subscription) (x : X) (apis : List GroupApi) (leases : List ℕ)
      → R s x
      → R (record s { group_apis = apis; pin_stack = leases }) x

module _ {W X : Type 0} {out : Outside W} {f : W → X} {R : Subscription → X → Type 0}
    (quiet : QuietRun out f) (free : Unconnected R) where
  unpin_all-quiet : (leases : List ℕ) (w : W) → f (unpin_all out leases w) ≡ f w
  unpin_all-quiet [] w = refl
  unpin_all-quiet (lease ∷ leases) w =
      unpin_all-quiet leases (out.unpin lease w) ∙ quiet.unpin_quiet lease w

  pin_all-Keeps :
      (groups : List (List Text)) (leases : List ℕ) → Keeps (Reads f R) (pin_all out groups leases)
  unfolding pin_all
  pin_all-Keeps [] leases = pure-Keeps leases
  pin_all-Keeps (group ∷ groups) leases =
      bind-Keeps (attempt-Keeps (call-Keeps quiet.rounds_quiet free.by_rounds _ quiet.pin_quiet))
        (λ r.
          result-Keeps r (λ lease. pin_all-Keeps groups (lease ∷ leases))
            (λ e.
              then-Keeps (modify-Keeps _ (λ st p. rw (unpin_all-quiet leases st.1) p))
                (raise-Keeps e)))

  update-Keeps :
      (g : Subscription → Subscription)
      → ((s : Subscription) (x : X) → R s x → R (g s) x)
      → Keeps (Reads f R) (update g)
  unfolding update
  update-Keeps g keeps_g = record { keeps = λ st p. keeps_g st.0 (f st.1) p }

  connect_groups-Keeps : (groups : List (List Text)) → Keeps (Reads f R) (connect_groups out groups)
  unfolding connect_groups
  connect_groups-Keeps groups = then-Keeps (raise_when-Keeps _ _) (
      then-Keeps
        (if-Keeps out.has_pin
          (bind-Keeps (read-Keeps _) (λ codes.
            then-Keeps
              (call-Keeps quiet.rounds_quiet free.by_rounds _ (quiet.rounds_quiet.load_quiet codes))
              (bind-Keeps (pin_all-Keeps groups [])
                (λ leases. update-Keeps (pinned leases) (λ s x p. free.by_connections s x _ _ p)))))
          (update-Keeps _ (λ s x p. free.by_connections s x _ _ p)))
        (update-Keeps armed (λ s x p. free.by_rounds.by_renewals s x _ p)))

  connect_once-Keeps :
      (apis : List GroupApi) (groups : List (List Text))
      → Keeps (Reads f R) (connect_once out apis groups)
  unfolding connect_once
  connect_once-Keeps [] groups = connect_groups-Keeps groups
  connect_once-Keeps (_ ∷ _) groups = pure-Keeps tt

  prepare-Keeps : Keeps (Reads f R) (prepare_connections out)
  unfolding prepare_connections
  prepare-Keeps =
      bind-Keeps (read-Keeps _)
        (λ apis. bind-Keeps (read-Keeps _) (λ groups. connect_once-Keeps apis groups))

  pub quiet-RunStable : Stable out (Reads f R) → RunStable out (Reads f R)
  quiet-RunStable rounds = record {
    rounds = rounds;
    prepare_keeps = prepare-Keeps;
    release_keeps = λ st p.
        rw (unpin_all-quiet st.0.pin_stack st.1)
          (free.by_rounds.by_renewals _ _ [] (free.by_connections st.0 (f st.1) [] [] p));
    stop_keeps = λ s w p. free.by_rounds.by_stop s (f w) true p;
  }
