-- ===== src/Connection.antt =====
-- The TCP connections of the extended-quote protocol (src/eltdx/ex/transport/sync.py) and of the
-- MAC protocol (src/eltdx/mac/transport.py): connect, execute, close.
pub mod Exchange
pub mod Ex
pub mod Mac
use eltdx.Base.{
  ℕ, Bool, true, false, List, [], ◌∷◌, ◌++◌, Option, none, some, Result, Error, ok, err, ◌==◌,
  if◌then◌else◌, ◌&&◌,
}
use eltdx.Wire.{Bytes}
use eltdx.Frame.{FrameHeader, Zlib, parse_header, parse_mac_header, decompress_body, header_size}
use eltdx.Stream.{Event, Socket, sendall, recv_exact}

-- `BaseCommand`: `build_request` may raise, and `parse_response` reads the inflated body.
pub record Command (A : Type 0) : Type 0 where
  pub build_request : Result Bytes
  pub parse_response : Bytes → Result A

-- A computation on the open socket; what was sent or read stays so after a raise.
abbrev pub Io : Type 0 → Type 0
Io A = Socket → Result A × Socket

abbrev pub and_then : {A B : Type 0} → Result A × Socket → (A → Io B) → Result B × Socket
and_then (ok a, s) f = f a s
and_then (err e, s) f = (err e, s)

infixl 5 ◌>>=◌ ◌>>◌
abbrev pub ◌>>=◌ : {A B : Type 0} → Io A → (A → Io B) → Io B
◌>>=◌ m f s = and_then (m s) f

abbrev pub ◌>>◌ : {A B : Type 0} → Io A → Io B → Io B
m >> k = m >>= λ _. k

abbrev pub pure : {A : Type 0} → A → Io A
pure a s = (ok a, s)

abbrev pub lift : {A : Type 0} → Result A → Io A
lift r s = (r, s)

-- `self._recv_exact(n)`
abbrev pub recv : Error → ℕ → Io Bytes
recv closed n s = let (r, es) = recv_exact closed n s.incoming in (r, record s { incoming = es })

-- Send a request and read one frame: the part of `execute` under `try`.
unfoldable pub exchange : Error → (Bytes → Result FrameHeader) → Bytes → Io (FrameHeader × Bytes)
exchange closed parse request = do
  sendall request
  buf ← recv closed header_size
  header ← lift (parse buf)
  raw_body ← recv closed header.zipsize
  pure (header, raw_body)

-- `self._sock`, and whether the connection speaks to a MAC-EX server.
pub record Connection : Type 0 where
  pub sock : Option Socket
  pub mac_ex_mode : Bool
  pub send_setup : Bool

-- `close()`
abbrev pub close : Connection → Connection
close c = record c { sock = none }

-- The outcome of a command: its value or exception, and the connection behind it.
abbrev pub keep : {A : Type 0} → Connection → Result A × Socket → Result A × Connection
keep c (r, s) = (r, record c { sock = some s })

abbrev pub answer : {A : Type 0} → Zlib → Command A → FrameHeader × Bytes → Result A
answer zlib cmd (header, raw_body) = elim (decompress_body zlib header raw_body) [
  | ok body ↦ cmd.parse_response body
  | err e ↦ err e
]
