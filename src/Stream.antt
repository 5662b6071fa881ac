-- ===== src/Stream.antt =====
-- A TCP socket as the program sees it, and the loop `_recv_exact` of src/eltdx/mac/transport.py
-- and `_recv_exact_sock` of src/eltdx/ex/transport/sync.py.
pub mod Exact
pub mod Failing
use eltdx.Base.{
  ℕ, zero, suc, ◌+◌, ◌-◌, ◌≡◌, Bool, true, false, List, [], ◌∷◌, ◌++◌, take, drop, length, leb, ltb,
  ◌==◌, if◌then◌else◌, Result, Error, ok, err, os_error, socket_timeout, connection_closed,
  transport_error, out_of_fuel,
}
use eltdx.Wire.{Bytes}

-- What the network will hand to the next calls of `recv`: a piece of the stream, a timeout, or an
-- error. After the last event the peer has closed.
pub data Event : Type 0 where
  piece : Bytes → Event
  timeout reset : Event

pub record Socket : Type 0 where
  pub incoming : List Event
  -- how many more calls of `sendall` succeed
  pub writable : ℕ
  pub sent : List Bytes

-- `sock.recv(n)`: a piece of at most `n` bytes; what is left of the piece stays.
abbrev pub recv_event : ℕ → List Event → Result Bytes × List Event
recv_event n [] = (ok [], [])
recv_event n (piece bs ∷ es) =
    if leb (length bs) n then (ok bs, es) else (ok (take n bs), piece (drop n bs) ∷ es)
recv_event n (timeout ∷ es) = (err socket_timeout, es)
recv_event n (reset ∷ es) = (err os_error, es)

-- `sock.sendall(data)`
abbrev pub sendall : Bytes → Socket → Result (Unit {0}) × Socket
sendall bs s =
    if s.writable == 0
    then (err os_error, s)
    else (ok tt, record s { writable = s.writable - 1; sent = s.sent ++ bs ∷ [] })

abbrev is_empty : Bytes → Bool
is_empty [] = true
is_empty (b ∷ bs) = false

-- What a round does with what `recv` gave; `closed` is the exception of an early end of the stream.
abbrev pub on_received :
    Error
    → (Bytes → List Event → Result Bytes × List Event)
    → Result Bytes × List Event
    → Result Bytes × List Event
on_received closed continue (ok [], es) = (err closed, es)
on_received closed continue (ok (b ∷ bs), es) = continue (b ∷ bs) es
on_received closed continue (err e, es) = (err e, es)

-- The `while` loop, on fuel.
unfoldable pub recv_loop : Error → ℕ → ℕ → Bytes → List Event → Result Bytes × List Event
recv_loop closed zero n buf es = (err out_of_fuel, es)
recv_loop closed (suc fuel) n buf es = elim (ltb (length buf) n) [
  | false ↦ (ok buf, es)
  | true ↦
      on_received closed (λ chunk es'. recv_loop closed fuel n (buf ++ chunk) es')
        (recv_event (n - length buf) es)
]

-- Each round adds a byte, so `n + 1` rounds are enough.
unfoldable pub recv_exact : Error → ℕ → List Event → Result Bytes × List Event
unfolding recv_loop
recv_exact closed n es = recv_loop closed (suc n) n [] es
