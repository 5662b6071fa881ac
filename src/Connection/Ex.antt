-- ===== src/Connection/Ex.antt =====
-- `ExTdxConnection` of src/eltdx/ex/transport/sync.py.
pub mod Laws
use eltdx.Base.{
  ℕ, Bool, true, false, List, [], ◌∷◌, ◌++◌, Option, none, some, Result, Error, ok, err, ◌==◌,
  if◌then◌else◌, ◌&&◌, ◌||◌, transport_error, is_os_error, is_eltdx_error,
}
use eltdx.Wire.{Bytes}
use eltdx.Frame.{FrameHeader, Zlib, parse_header, header_size}
use eltdx.Stream.{Socket, sendall}
use eltdx.Connection.{
  Command, Io, ◌>>=◌, ◌>>◌, pure, lift, recv, exchange, Connection, keep, answer,
}

-- `except OSError as e: raise TransportError`; a timeout is an `OSError`.
abbrev pub as_transport_error : {A : Type 0} → Result A → Result A
as_transport_error (ok a) = ok a
as_transport_error (err e) = if is_os_error e then err transport_error else err e

-- A MAC request for a MAC-EX server has the flag 0x01 in place of 0x1c.
abbrev pub ex_request : Bool → Bytes → Bytes
ex_request mac_ex_mode [] = []
ex_request mac_ex_mode (b ∷ bs) = if mac_ex_mode && b == 0x1c then 0x01 ∷ bs else b ∷ bs

abbrev ex_exchange : Bytes → Io (FrameHeader × Bytes)
ex_exchange = exchange transport_error parse_header

abbrev settle :
    {A : Type 0}
    → Zlib
    → Command A
    → Connection
    → Result (FrameHeader × Bytes) × Socket
    → Result A × Connection
settle zlib cmd c (ok frame, s) = keep c (answer zlib cmd frame, s)
settle zlib cmd c (err e, s) = keep c (as_transport_error (err e), s)

execute_open : {A : Type 0} → Zlib → Command A → Connection → Socket → Result A × Connection
execute_open zlib cmd c s = elim cmd.build_request [
  | err e ↦ (err e, c)
  | ok request ↦ settle zlib cmd c (ex_exchange (ex_request c.mac_ex_mode request) s)
]

unfoldable pub execute : {A : Type 0} → Zlib → Command A → Connection → Result A × Connection
unfolding execute_open
execute zlib cmd c = elim c.sock [
  | none ↦ (err transport_error, c)
  | some s ↦ execute_open zlib cmd c s
]

-- The session handshake: its answer is read whole and thrown away.
abbrev pub handshake : Bytes → Io (FrameHeader × Bytes)
handshake setup_package = exchange transport_error parse_header setup_package

-- `except (OSError, EltdxError)` of `connect`: the socket is closed. Any other exception goes
-- through, and the connection keeps the socket.
abbrev pub caught : Error → Bool
caught e = is_os_error e || is_eltdx_error e

abbrev pub given_up : Connection → Error → Socket → Result (Unit {0}) × Connection
given_up c e s =
    if caught e
    then (err transport_error, record c { sock = none })
    else (err e, record c { sock = some s })

abbrev pub opened :
    Connection → Result (FrameHeader × Bytes) × Socket → Result (Unit {0}) × Connection
opened c (ok _, s) = (ok tt, record c { sock = some s })
opened c (err e, s) = given_up c e s

-- `connect()`, by the 92 bytes of `_EX_SETUP_PKG`, what `socket.socket` and `settimeout` gave, which
-- stand outside the `try`, and what `sock.connect` gave.
unfoldable pub connect :
    Bytes → Result Socket → Result (Unit {0}) → Connection → Result (Unit {0}) × Connection
connect setup_package (err e) dialled c = (err e, c)
connect setup_package (ok s) (err e) c = given_up c e s
connect setup_package (ok s) (ok _) c =
    if c.send_setup
    then opened c (handshake setup_package s)
    else (ok tt, record c { sock = some s })

-- `__init__`: a MAC-EX session never sends the package.
abbrev pub new_connection : Bool → Bool → Connection
new_connection mac_ex_mode send_setup = record {
  sock = none;
  mac_ex_mode = mac_ex_mode;
  send_setup = send_setup && (if mac_ex_mode then false else true);
}
