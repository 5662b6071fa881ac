-- ===== src/Tests/Pools.antt =====
-- Runs of the theorems on the pool's engine and its pinned connections.
use eltdx.Base.{ℕ, suc, refl, true, List, [], ◌∷◌, ◌++◌, ok, arith}
use eltdx.Protocol.Text.{Text, codes}
use eltdx.Pool.Transport.{
  Native, NativeCall, pin_execute, pin_close, State, running_state, execute_call, new_transport,
  on_engine,
}
use eltdx.Pool.Transport.Engine.{BuildLog, BuiltOnce, begins, goes, runs, Reach-BuiltOnce}

-- The engines that were built, and the epoch.
record Engines : Type 0 where
  built : List (List Text)
  epoch : ℕ

abbrev engine : Native Engines ℕ
engine = record {
  construct = λ hosts w. (ok tt, record w { built = w.built ++ hosts ∷ []; epoch = suc w.epoch });
  sort_hosts = λ hosts w. (hosts, w);
  run_call = λ request w. (ok 0, w);
  take_pin = λ w. (ok 7, w);
  pool_diagnostics = λ w. (ok (w.epoch, running_state), w);
}

log : BuildLog engine (λ w. w.built)
log = record {
  construct_logs = λ hosts w is_ok. refl;
  construct_fails = λ hosts w e is_err. absurd (ground (arith, is_err));
  sort_quiet = λ hosts w. refl;
  run_quiet = λ request w. refl;
  pin_quiet = λ w. refl;
  diagnostics_quiet = λ w. refl;
}

abbrev hosts : List Text
hosts = codes "10.0.0.1:7709" ∷ codes "10.0.0.2:7709" ∷ []

abbrev start : State Engines
start = (new_transport hosts true, record { built = []; epoch = 0 })

abbrev first : State Engines
first = (on_engine engine (execute_call 5) start).1

Reach-BuiltOnce_example : BuiltOnce (λ w. w.built) ((on_engine engine (execute_call 6) first).1)
Reach-BuiltOnce_example =
    Reach-BuiltOnce log hosts true (record { built = []; epoch = 0 })
      ((on_engine engine (execute_call 6) first).1) refl
      (goes first _ (goes start first begins (runs (execute_call 5) start))
        (runs (execute_call 6) first))

-- An engine that keeps its epoch and the calls on its pins.
record Pins : Type 0 where
  now : ℕ
  calls : List (ℕ × ℕ)

abbrev noted : NativeCall → Pins → Pins
noted (pin_execute native_pin command) w = record w { calls = w.calls ++ (native_pin, w.now) ∷ [] }
noted (pin_close native_pin) w = record w { calls = w.calls ++ (native_pin, w.now) ∷ [] }
noted _ w = w

abbrev pinning : Native Pins ℕ
pinning = record {
  construct = λ hosts w. (ok tt, record w { now = suc w.now });
  sort_hosts = λ hosts w. (hosts, w);
  run_call = λ request w. (ok 0, noted request w);
  take_pin = λ w. (ok 7, w);
  pool_diagnostics = λ w. (ok (w.now, running_state), w);
}

abbrev pool_at : ℕ → List (ℕ × ℕ) → State Pins
pool_at now calls = (
  record { hosts = hosts; hosts_probed = true; has_engine = true },
  record { now = now; calls = calls },
)
