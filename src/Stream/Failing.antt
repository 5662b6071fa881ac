-- ===== src/Stream/Failing.antt =====
-- Which exceptions `_recv_exact` can raise, whatever the network does.
use eltdx.Base.{
  ℕ, zero, suc, ◌+◌, ◌-◌, ◌<◌, List, [], ◌∷◌, ◌++◌, length, length-append, leb, ltb, ltb→lt,
  Bool-cases, inl, inr, Result, Error, ok, err, os_error, socket_timeout, arith,
}
use eltdx.Wire.{Bytes}
use eltdx.Stream.{Event, piece, timeout, reset, recv_event, on_received, recv_loop, recv_exact}

-- An exception, where there is one, is one of these.
abbrev pub Fails : {A : Type 0} → (Error → Type 0) → Result A → Type 0
Fails P (ok a) = Unit
Fails P (err e) = P e

module _ (P : Error → Type 0) (closed : Error) (early : P closed) (broken : P os_error)
    (late : P socket_timeout) where
  recv_event-Fails : (n : ℕ) (es : List Event) → Fails P (recv_event n es).0
  recv_event-Fails n [] = tt
  recv_event-Fails n (piece bs ∷ es) = elim (Bool-cases (leb (length bs) n)) [
    | inl whole ↦ rw whole tt
    | inr part ↦ rw part tt
  ]
  recv_event-Fails n (timeout ∷ es) = late
  recv_event-Fails n (reset ∷ es) = broken

  on_received-Fails :
      (continue : Bytes → List Event → Result Bytes × List Event) (r : Result Bytes × List Event)
      → Fails P r.0
      → ((b : ℕ) (bs : Bytes) (es : List Event) → Fails P (continue (b ∷ bs) es).0)
      → Fails P (on_received closed continue r).0
  on_received-Fails continue (ok [], es) failing next = early
  on_received-Fails continue (ok (b ∷ bs), es) failing next = next b bs es
  on_received-Fails continue (err e, es) failing next = failing

  -- Each round makes the buffer longer, so that the loop does not run out of fuel.
  recv_loop-Fails :
      (fuel n : ℕ) (buf : Bytes) (es : List Event)
      → n < length buf + fuel
      → 0 < fuel
      → Fails P (recv_loop closed fuel n buf es).0
  unfolding recv_loop
  recv_loop-Fails zero n buf es enough some_fuel = absurd (omega arith)
  recv_loop-Fails (suc fuel) n buf es enough some_fuel = elim (Bool-cases (ltb (length buf) n)) [
    | inl short ↦
        let less = ltb→lt _ _ short in
        rw (short, recv_loop)
          (on_received-Fails (λ chunk es'. recv_loop closed fuel n (buf ++ chunk) es')
            (recv_event (n - length buf) es) (recv_event-Fails _ es)
            (λ b bs es'.
              recv_loop-Fails fuel n (buf ++ (b ∷ bs)) es'
                (omega (arith, length-append buf (b ∷ bs))) (omega arith)))
    | inr full ↦ rw (full, recv_loop) tt
  ]

  pub recv_exact-Fails : (n : ℕ) (es : List Event) → Fails P (recv_exact closed n es).0
  unfolding recv_exact
  recv_exact-Fails n es = recv_loop-Fails (suc n) n [] es (omega arith) (omega arith)
