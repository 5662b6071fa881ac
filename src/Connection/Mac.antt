-- ===== src/Connection/Mac.antt =====
-- `MacConnection` of src/eltdx/mac/transport.py.
pub mod Laws
use eltdx.Base.{
  ℕ, Bool, true, false, List, [], ◌∷◌, ◌++◌, Option, none, some, Result, Error, ok, err, ltb,
  if◌then◌else◌, transport_error, connection_closed, response_timeout, socket_timeout, ◌||◌,
  is_os_error, is_transport_error,
}
use eltdx.Wire.{Bytes}
use eltdx.Frame.{FrameHeader, Zlib, parse_mac_header, header_size}
use eltdx.Stream.{Socket, sendall}
use eltdx.Connection.{
  Command, Io, ◌>>=◌, ◌>>◌, pure, lift, recv, exchange, Connection, keep, answer,
}

-- `except socket.timeout` and `except OSError` of `execute`.
abbrev pub as_connection_error : {A : Type 0} → Result A → Result A
as_connection_error (ok a) = ok a
as_connection_error (err socket_timeout) = err response_timeout
as_connection_error (err e) = if is_os_error e then err connection_closed else err e

abbrev mac_exchange : Bytes → Io (FrameHeader × Bytes)
mac_exchange = exchange connection_closed parse_mac_header

abbrev settle :
    {A : Type 0}
    → Zlib
    → Command A
    → Connection
    → Result (FrameHeader × Bytes) × Socket
    → Result A × Connection
settle zlib cmd c (ok frame, s) = keep c (answer zlib cmd frame, s)
settle zlib cmd c (err e, s) = keep c (as_connection_error (err e), s)

execute_open : {A : Type 0} → Zlib → Command A → Connection → Socket → Result A × Connection
execute_open zlib cmd c s = elim cmd.build_request [
  | err e ↦ (err e, c)
  | ok request ↦ settle zlib cmd c (mac_exchange request s)
]

unfoldable pub execute : {A : Type 0} → Zlib → Command A → Connection → Result A × Connection
unfolding execute_open
execute zlib cmd c = elim c.sock [
  | none ↦ (err transport_error, c)
  | some s ↦ execute_open zlib cmd c s
]

-- `except (OSError, TransportError): pass`
abbrev ignored : Error → Bool
ignored e = is_os_error e || is_transport_error e

-- Reading the answer to one set-up command.
abbrev read_setup_answer : Io (Unit {0})
read_setup_answer = do
  buf ← recv connection_closed header_size
  header ← lift (parse_mac_header buf)
  if ltb 0 header.zipsize then (recv connection_closed header.zipsize >> pure tt) else pure tt

abbrev forgive : Result (Unit {0}) × Socket → Result (Unit {0}) × Socket
forgive (ok u, s) = (ok u, s)
forgive (err e, s) = if ignored e then (ok tt, s) else (err e, s)

-- `_send_setup`
unfoldable pub send_setup : List Bytes → Io (Unit {0})
send_setup [] = pure tt
send_setup (cmd ∷ cmds) = do sendall cmd; (λ s. forgive (read_setup_answer s)); send_setup cmds

abbrev opened : Connection → Result (Unit {0}) × Socket → Result (Unit {0}) × Connection
opened c (ok _, s) = (ok tt, record c { sock = some s })
opened c (err e, s) = (err e, record c { sock = none })

-- `connect`, by the set-up commands, what the socket factory and `settimeout` gave, and what
-- `sock.connect` gave: an `OSError` of it becomes a `TransportError`, any other exception goes
-- through.
unfoldable pub connect :
    List Bytes → Result Socket → Result (Unit {0}) → Connection → Result (Unit {0}) × Connection
unfolding send_setup
connect setup_commands (err e) dialled c = (err e, c)
connect setup_commands (ok s) (err e) c =
    if is_os_error e then (err transport_error, c) else (err e, c)
connect setup_commands (ok s) (ok _) c = opened c (send_setup setup_commands s)
