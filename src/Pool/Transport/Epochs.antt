-- ===== src/Pool/Transport/Epochs.antt =====
-- A pinned connection is used in its own epoch of the pool alone, and not behind its close.
use eltdx.Base.{
  ℕ, ◌≡◌, Bool, true, not, List, [], ◌∷◌, ◌++◌, All, Result, ok, err, connection_closed, ◌==◌, ◌&&◌,
  if◌then◌else◌,
}
use eltdx.Base.Effect.{◌>>◌, and_then, raise_when, pure}
use eltdx.Pool.Transport.{
  Native, PoolState, Proxy, State, Transport, call, pin_execute, pin_close, pinned_execute,
  pinned_close, is_running,
}

-- The epoch of an engine, and the calls on its pins, each with the epoch that it came in.
pub record PinLog {W Value : Type 0} (native : Native W Value) (epoch : W → ℕ)
    (calls : W → List (ℕ × ℕ)) : Type 0 where
  pub answers :
      (w : W) (known : ℕ × PoolState)
      → (native.pool_diagnostics w).0 ≡ ok known
      → known.0 ≡ epoch ((native.pool_diagnostics w).1)
  pub diagnostics_quiet : (w : W) → calls ((native.pool_diagnostics w).1) ≡ calls w
  pub execute_logs :
      (native_pin command : ℕ) (w : W)
      → calls ((native.run_call (pin_execute native_pin command) w).1)
        ≡ calls w ++ (native_pin, epoch w) ∷ []
  pub close_logs :
      (native_pin : ℕ) (w : W)
      → calls ((native.run_call (pin_close native_pin) w).1) ≡ calls w ++ (native_pin, epoch w) ∷ []

-- Whether a proxy is closed behind its `close`, which may raise.
abbrev pub closed_after : Bool → Result Proxy → Bool
closed_after closed (ok proxy) = proxy.closed
closed_after closed (err e) = closed

abbrev pub held : ℕ → ℕ → Bool → Proxy
held native_pin epoch closed = record { native_pin = native_pin; epoch = epoch; closed = closed }

-- What can happen to a proxy, open or closed, and to the pool, which has an engine: a request or a
-- close of the proxy, or anything else, also a new epoch, that calls nothing on a pin.
pub data Use {W Value : Type 0} (native : Native W Value) (calls : W → List (ℕ × ℕ))
    (native_pin epoch : ℕ) : Bool × State W → Bool × State W → Type 0 where
  requests :
      (command : ℕ) (closed : Bool) (st : State W)
      → st.0.has_engine ≡ true
      → Use native calls native_pin epoch
          (closed, st)
          (closed, (pinned_execute native (held native_pin epoch closed) command st).1)
  closes :
      (closed : Bool) (st : State W)
      → st.0.has_engine ≡ true
      → Use native calls native_pin epoch
          (closed, st)
          (
            closed_after closed ((pinned_close native (held native_pin epoch closed) st).0),
            (pinned_close native (held native_pin epoch closed) st).1,
          )
  others :
      (closed : Bool) (st st' : State W)
      → calls st'.1 ≡ calls st.1
      → Use native calls native_pin epoch (closed, st) (closed, st')

pub data Uses {W Value : Type 0} (native : Native W Value) (calls : W → List (ℕ × ℕ))
    (native_pin epoch : ℕ) (start : Bool × State W) : Bool × State W → Type 0 where
  unused : Uses native calls native_pin epoch start start
  used :
      (at next : Bool × State W)
      → Uses native calls native_pin epoch start at
      → Use native calls native_pin epoch at next
      → Uses native calls native_pin epoch start next

-- The second log is the first one and calls of the pin in its epoch; of a closed proxy, none.
abbrev pub Adds : ℕ → ℕ → Bool → List (ℕ × ℕ) → List (ℕ × ℕ) → Type 0
Adds native_pin epoch closed before after =
    (more : List (ℕ × ℕ)) × (after ≡ before ++ more)
    × All (λ c. c ≡ (native_pin, epoch)) more
    × (closed ≡ true → more ≡ [])

module _ {W Value : Type 0} {native : Native W Value} {epoch_of : W → ℕ} {calls : W → List (ℕ × ℕ)}
    (log : PinLog native epoch_of calls) (native_pin epoch : ℕ) where
  -- What the two methods do behind the diagnostics, where these answered with the epoch of now.
  abbrev checked : ℕ → Result (ℕ × PoolState) × State W → Result Value × State W
  checked command r =
      and_then (and_then r (λ known. raise_when (not (known.0 == epoch)) connection_closed))
        (λ _. call (native.run_call (pin_execute native_pin command)))

  abbrev closing : Result (ℕ × PoolState) × State W → Result Proxy × State W
  closing r = and_then r (λ known.
      if known.0 == epoch && is_running known.1
      then (call (native.run_call (pin_close native_pin)) >> pure (held native_pin epoch true))
      else pure (held native_pin epoch true))
