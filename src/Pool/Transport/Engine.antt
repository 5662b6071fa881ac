-- ===== src/Pool/Transport/Engine.antt =====
-- A transport builds one engine, for the hosts that it shows.
use eltdx.Base.{
  ℕ, ◌≡◌, refl, sym, ap, ◌∙◌, Bool, true, false, List, [], ◌∷◌, ◌++◌, Option, Result, ok, err,
  Error,
}
use eltdx.Base.Effect.{
  Keeps, bind-Keeps, then-Keeps, pure-Keeps, raise-Keeps, raise_when-Keeps, if-Keeps, ◌>>=◌, ◌>>◌,
  pure, and_then,
}
use eltdx.Protocol.Text.{Text}
use eltdx.Pool.Transport.{
  Native, NativeCall, Transport, State, Proxy, new_transport, read, call, update, ranked_by,
  ranked_hosts, sort_once, build_once, set_ranked_hosts, probe, construct_engine, engine_set,
  native_engine, on_engine, on_open_engine, execute_trade_batch, diagnostics, pin, require_open,
  pinned_execute, pinned_close,
}

-- The lists of hosts that engines were built for.
pub record BuildLog {W Value : Type 0} (native : Native W Value) (built : W → List (List Text))
    : Type 0 where
  pub construct_logs :
      (hosts : List Text) (w : W)
      → (native.construct hosts w).0 ≡ ok tt
      → built ((native.construct hosts w).1) ≡ built w ++ hosts ∷ []
  pub construct_fails :
      (hosts : List Text) (w : W) (e : Error)
      → (native.construct hosts w).0 ≡ err e
      → built ((native.construct hosts w).1) ≡ built w
  pub sort_quiet : (hosts : List Text) (w : W) → built ((native.sort_hosts hosts w).1) ≡ built w
  pub run_quiet : (request : NativeCall) (w : W) → built ((native.run_call request w).1) ≡ built w
  pub pin_quiet : (w : W) → built ((native.take_pin w).1) ≡ built w
  pub diagnostics_quiet : (w : W) → built ((native.pool_diagnostics w).1) ≡ built w

-- Without an engine none was built, and with one it was built once, for the hosts of now.
abbrev pub engines : Bool → List Text → List (List Text)
engines true hosts = hosts ∷ []
engines false hosts = []

abbrev pub BuiltOnce : {W : Type 0} → (W → List (List Text)) → State W → Type 0
BuiltOnce built (t, w) = built w ≡ engines t.has_engine t.hosts

-- A call from outside, of the transport or of a proxy of it.
pub data Step {W Value : Type 0} (native : Native W Value) : State W → State W → Type 0 where
  ranks :
      (normalize_host : Text → Option Text) (hosts : List Text) (st : State W)
      → Step native st ((set_ranked_hosts normalize_host hosts st).1)
  runs : (request : NativeCall) (st : State W) → Step native st ((on_engine native request st).1)
  runs_open :
      (request : NativeCall) (st : State W) → Step native st ((on_open_engine native request st).1)
  trades : (command : ℕ) (st : State W) → Step native st ((execute_trade_batch native command st).1)
  diagnoses : (st : State W) → Step native st ((diagnostics native st).1)
  pins : (st : State W) → Step native st ((pin native st).1)
  runs_pinned :
      (proxy : Proxy) (command : ℕ) (st : State W)
      → Step native st ((pinned_execute native proxy command st).1)
  closes_pinned : (proxy : Proxy) (st : State W) → Step native st ((pinned_close native proxy st).1)

pub data Reach {W Value : Type 0} (native : Native W Value) (start : State W)
    : State W → Type 0 where
  begins : Reach native start start
  goes : (st next : State W) → Reach native start st → Step native st next → Reach native start next

module _ {W Value : Type 0} {native : Native W Value} {built : W → List (List Text)}
    (log : BuildLog native built) where
  abbrev P : State W → Type 0
  P = BuiltOnce built

  read-Keeps : {A : Type 0} (f : Transport → A) → Keeps P (read {W = W} f)
  unfolding read
  read-Keeps f = record { keeps = λ st p. p }

  call-Keeps :
      {A : Type 0} (f : W → Result A × W) → ((w : W) → built ((f w).1) ≡ built w) → Keeps P (call f)
  unfolding call
  call-Keeps f quiet = record { keeps = λ st p. quiet st.1 ∙ p }

  ranked-BuiltOnce :
      (b : Bool) (ranked : List Text) (t : Transport) (w : W)
      → t.has_engine ≡ b
      → P (t, w)
      → P (ranked_by b ranked t, w)
  ranked-BuiltOnce true ranked t w e p = p
  ranked-BuiltOnce false ranked t w e p =
      p ∙ (ap (λ b. engines b t.hosts) e ∙ sym (ap (λ b. engines b ranked) e))

  constructed-BuiltOnce :
      (t : Transport) (w : W) (r : Result (Unit {0}))
      → t.has_engine ≡ false
      → (native.construct t.hosts w).0 ≡ r
      → P (t, w)
      → P ((engine_set native r t ((native.construct t.hosts w).1)).1)
  constructed-BuiltOnce t w (ok _) none_yet e p =
      log.construct_logs t.hosts w e
      ∙ ap (λ bs. bs ++ t.hosts ∷ []) (p ∙ ap (λ b. engines b t.hosts) none_yet)
  constructed-BuiltOnce t w (err x) none_yet e p = log.construct_fails t.hosts w x e ∙ p

  -- Sorting the hosts, before there is an engine.
  sorted-BuiltOnce :
      (b : Bool) (st : State W)
      → st.0.has_engine ≡ false
      → P st
      → P ((sort_once native b st).1) × ((sort_once native b st).1.0.has_engine ≡ false)
  unfolding sort_once
  sorted-BuiltOnce true st none_yet p = (p, none_yet)
  sorted-BuiltOnce false (t, w) none_yet p =
      let sorted = native.sort_hosts t.hosts w in
      (
        log.sort_quiet t.hosts w
            ∙ (p
                ∙ (ap (λ b. engines b t.hosts) none_yet
                    ∙ sym (ap (λ b. engines b sorted.0) none_yet))),
        none_yet,
      )

  build_probed :
      (b : Bool) (st : State W)
      → st.0.has_engine ≡ false
      → P st
      → P ((and_then (sort_once native b st) (λ _. construct_engine native)).1)
  unfolding construct_engine sort_once
  build_probed true st e p = constructed-BuiltOnce st.0 st.1 _ e refl p
  build_probed false st e p =
      let (q, e') = sorted-BuiltOnce false st e p in constructed-BuiltOnce _ _ _ e' refl q

  build-BuiltOnce :
      (b : Bool) (st : State W) → st.0.has_engine ≡ b → P st → P ((build_once native b st).1)
  unfolding build_once pure probe construct_engine ◌>>◌ ◌>>=◌ sort_once
  build-BuiltOnce true st e p = p
  build-BuiltOnce false st e p = build_probed st.0.hosts_probed st e p

  native_engine-Keeps : Keeps P (native_engine native)
  unfolding native_engine
  native_engine-Keeps = record { keeps = λ st p. build-BuiltOnce st.0.has_engine st refl p }

  update-Keeps : (ranked : List Text) → Keeps P (update (ranked_hosts ranked))
  unfolding update
  update-Keeps ranked = record {
    keeps = λ st p. ranked-BuiltOnce st.0.has_engine ranked st.0 st.1 refl p;
  }

  set_ranked-Keeps :
      (normalize_host : Text → Option Text) (hosts : List Text)
      → Keeps P (set_ranked_hosts normalize_host hosts)
  unfolding set_ranked_hosts
  set_ranked-Keeps normalize_host hosts =
      bind-Keeps (read-Keeps _) (λ known. then-Keeps (raise_when-Keeps _ _) (update-Keeps _))

  run-Keeps : (request : NativeCall) → Keeps P (call (native.run_call request))
  run-Keeps request = call-Keeps (native.run_call request) (log.run_quiet request)

  on_engine-Keeps : (request : NativeCall) → Keeps P (on_engine native request)
  unfolding on_engine
  on_engine-Keeps request = then-Keeps native_engine-Keeps (run-Keeps request)

  on_open_engine-Keeps : (request : NativeCall) → Keeps P (on_open_engine native request)
  unfolding on_open_engine
  on_open_engine-Keeps request = bind-Keeps (read-Keeps _) (λ is_built.
      if-Keeps is_built (bind-Keeps (run-Keeps request) (λ value. pure-Keeps _)) (pure-Keeps _))

  trade_batch-Keeps : (command : ℕ) → Keeps P (execute_trade_batch native command)
  unfolding execute_trade_batch
  trade_batch-Keeps command = then-Keeps (raise_when-Keeps _ _) (on_engine-Keeps _)

  diagnostics-Keeps : Keeps P (diagnostics native)
  unfolding diagnostics
  diagnostics-Keeps = bind-Keeps (read-Keeps _) (λ is_built.
      if-Keeps is_built (call-Keeps native.pool_diagnostics log.diagnostics_quiet) (pure-Keeps _))

  pin-Keeps : Keeps P (pin native)
  unfolding pin
  pin-Keeps = then-Keeps native_engine-Keeps (
      bind-Keeps (call-Keeps native.take_pin log.pin_quiet)
        (λ native_pin. bind-Keeps diagnostics-Keeps (λ known. pure-Keeps _)))

  require_open-Keeps : (proxy : Proxy) → Keeps P (require_open native proxy)
  unfolding require_open
  require_open-Keeps proxy =
      if-Keeps proxy.closed (raise-Keeps _)
        (bind-Keeps diagnostics-Keeps (λ known. raise_when-Keeps _ _))

  pinned_execute-Keeps :
      (proxy : Proxy) (command : ℕ) → Keeps P (pinned_execute native proxy command)
  unfolding pinned_execute
  pinned_execute-Keeps proxy command = then-Keeps (require_open-Keeps proxy) (run-Keeps _)

  pinned_close-Keeps : (proxy : Proxy) → Keeps P (pinned_close native proxy)
  unfolding pinned_close
  pinned_close-Keeps proxy = if-Keeps proxy.closed (pure-Keeps proxy) (
      bind-Keeps diagnostics-Keeps
        (λ known. if-Keeps _ (then-Keeps (run-Keeps _) (pure-Keeps _)) (pure-Keeps _)))

  Step-BuiltOnce : (st next : State W) → Step native st next → P st → P next
  Step-BuiltOnce _ _ (ranks normalize_host hosts st) p =
      (set_ranked-Keeps normalize_host hosts).keeps st p
  Step-BuiltOnce _ _ (runs request st) p = (on_engine-Keeps request).keeps st p
  Step-BuiltOnce _ _ (runs_open request st) p = (on_open_engine-Keeps request).keeps st p
  Step-BuiltOnce _ _ (trades command st) p = (trade_batch-Keeps command).keeps st p
  Step-BuiltOnce _ _ (diagnoses st) p = diagnostics-Keeps.keeps st p
  Step-BuiltOnce _ _ (pins st) p = pin-Keeps.keeps st p
  Step-BuiltOnce _ _ (runs_pinned proxy command st) p =
      (pinned_execute-Keeps proxy command).keeps st p
  Step-BuiltOnce _ _ (closes_pinned proxy st) p = (pinned_close-Keeps proxy).keeps st p

  -- In every state that calls of a new transport and its proxies lead to, in any order and whatever
  -- the engine answers, no engine was built for a transport without one, and for a transport with
  -- one exactly one was built, for the hosts that it still shows.
  pub Reach-BuiltOnce :
      (hosts : List Text) (probe_hosts : Bool) (w : W) (st : State W)
      → built w ≡ []
      → Reach native (new_transport hosts probe_hosts, w) st
      → BuiltOnce built st
  Reach-BuiltOnce hosts probe_hosts w _ none_yet begins = none_yet
  Reach-BuiltOnce hosts probe_hosts w _ none_yet (goes st next reached step) =
      Step-BuiltOnce st next step (Reach-BuiltOnce hosts probe_hosts w st none_yet reached)
