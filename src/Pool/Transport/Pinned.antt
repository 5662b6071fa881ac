-- ===== src/Pool/Transport/Pinned.antt =====
-- A pinned connection is of use for one epoch of the pool.
use eltdx.Base.{
  ℕ, ◌≡◌, refl, ap, Bool, true, false, not, Result, ok, err, connection_closed, inl, inr, ◌⊎◌, ◌==◌,
  if◌then◌else◌, ◌&&◌, arith,
}
use eltdx.Base.Effect.{◌>>=◌, ◌>>◌, and_then, raise, raise_when, pure}
use eltdx.Pool.Transport.{
  Native, PoolState, call, pin_execute, State, Method, Proxy, diagnostics, require_open,
  pinned_execute, pinned_close, is_running,
}

-- The proxy is closed, or the pool answers and has another epoch.
abbrev IsStale : {W Value : Type 0} → Native W Value → Proxy → State W → Type 0
IsStale native proxy st =
    (proxy.closed ≡ true)
    ⊎ ((known : ℕ × PoolState) × ((diagnostics native st).0 ≡ ok known)
        × ((known.0 == proxy.epoch) ≡ false))

module _ {W Value : Type 0} (native : Native W Value) where
  -- What is left of the state where only the diagnostics were asked, if at all.
  abbrev asked : Bool → State W → State W
  asked true st = st
  asked false st = (diagnostics native st).1

  -- The two requests, by what the diagnostics gave.
  refuses :
      (epoch : ℕ) (known : ℕ × PoolState) (r : Result (ℕ × PoolState) × State W)
      → r.0 ≡ ok known
      → (known.0 == epoch) ≡ false
      → and_then r (λ k. raise_when (not (k.0 == epoch)) connection_closed)
        ≡ (err connection_closed, r.1)
  unfolding raise_when
  refuses epoch known (ok k, st) answered other =
      let same : k ≡ known = ground arith in rw same (rw other refl)
  refuses epoch known (err e, st) answered other = absurd (ground (arith, answered))

  leaves :
      (epoch : ℕ) (proxy : Proxy) (close : Method W Proxy) (known : ℕ × PoolState)
      (r : Result (ℕ × PoolState) × State W)
      → r.0 ≡ ok known
      → (known.0 == epoch) ≡ false
      → and_then r (λ k. if k.0 == epoch && is_running k.1 then close else pure proxy)
        ≡ (ok proxy, r.1)
  unfolding pure
  leaves epoch proxy close known (ok k, st) answered other =
      let same : k ≡ known = ground arith in rw same (rw other refl)
  leaves epoch proxy close known (err e, st) answered other = absurd (ground (arith, answered))

  abbrev Refused : Proxy → ℕ → State W → Type 0
  Refused proxy command st =
      (pinned_execute native proxy command st ≡ (err connection_closed, asked proxy.closed st))
      × (pinned_close native proxy st
          ≡ (ok (record proxy { closed = true }), asked proxy.closed st))

  closed_proxy :
      (native_pin epoch command : ℕ) (st : State W)
      → Refused (record { native_pin = native_pin; epoch = epoch; closed = true }) command st
  unfolding pinned_execute pinned_close require_open ◌>>=◌ ◌>>◌ raise pure
  closed_proxy native_pin epoch command st = (refl, refl)

  old_proxy :
      (native_pin epoch command : ℕ) (closed : Bool) (known : ℕ × PoolState) (st : State W)
      → (diagnostics native st).0 ≡ ok known
      → (known.0 == epoch) ≡ false
      → Refused (record { native_pin = native_pin; epoch = epoch; closed = closed }) command st
  unfolding pinned_execute pinned_close require_open ◌>>=◌ ◌>>◌
  old_proxy native_pin epoch command true known st answered other =
      closed_proxy native_pin epoch command st
  old_proxy native_pin epoch command false known st answered other = (
    ap (λ r. and_then r (λ _. call (native.run_call (pin_execute native_pin command))))
        (refuses epoch known (diagnostics native st) answered other),
    leaves epoch _ _ known (diagnostics native st) answered other,
  )

  -- A request on a proxy that is closed, or whose epoch is not the pool's any more, raises a
  -- `ConnectionClosedError`; it calls nothing on the pin, and nor does closing such a proxy, which
  -- leaves it closed.
  stale_proxy :
      (proxy : Proxy) (command : ℕ) (st : State W)
      → IsStale native proxy st
      → (pinned_execute native proxy command st ≡ (err connection_closed, asked proxy.closed st))
        × (pinned_close native proxy st
            ≡ (ok (record proxy { closed = true }), asked proxy.closed st))
  stale_proxy proxy command st (inl shut) = shut_proxy proxy.closed shut
    where
      shut_proxy : (b : Bool) → b ≡ true → Refused (record proxy { closed = b }) command st
      shut_proxy true e = closed_proxy proxy.native_pin proxy.epoch command st
      shut_proxy false e = absurd (ground (arith, e))
  stale_proxy proxy command st (inr (known, answered, other)) =
      old_proxy proxy.native_pin proxy.epoch command proxy.closed known st answered other
