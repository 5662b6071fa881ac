-- ===== src/Tests/Connections.antt =====
-- Runs of the theorems on a socket and the two connections.
use eltdx.Base.{
  ◌≡◌, refl, List, [], ◌∷◌, ◌++◌, take, drop, some, ok, err, true, false, transport_error,
  response_timeout, arith,
}
use eltdx.Wire.{Bytes}
use eltdx.Frame.{parse_header, parse_mac_header, unpack_header}
use eltdx.Stream.{Event, Socket, recv_exact}
use eltdx.Stream.Event.{piece, timeout}
use eltdx.Stream.Exact.{bytes_of, recv_exact-stream}
use eltdx.Connection.{Command, Connection, answer}
use eltdx.Connection.Exchange.{Frames, Ready}
use eltdx.Connection.Ex
use eltdx.Connection.Ex.{ex_request}
use eltdx.Connection.Ex.Laws.{execute-Ready, connect-Ready, connect-AllOrNothing, AllOrNothing}
use eltdx.Connection.Mac
use eltdx.Connection.Mac.Laws.{mac_execute-Ready, execute_after_timeout}
use eltdx.Tests.Samples.{stored_zlib}

-- A header that announces two bytes
abbrev head : Bytes
head = 0xb1 ∷ 0xcb ∷ 0x74 ∷ 0 ∷ 1 ∷ 0 ∷ 0 ∷ 0 ∷ 0xb0 ∷ 4 ∷ 0 ∷ 0 ∷ 2 ∷ 0 ∷ 2 ∷ 0 ∷ []

abbrev body : Bytes
body = 5 ∷ 6 ∷ []

abbrev stream : Bytes
stream = head ++ (body ++ (9 ∷ []))

-- The stream, cut inside the header
abbrev pieces : List Event
pieces = piece (take 3 stream) ∷ piece (drop 3 stream) ∷ []

abbrev socket : Socket
socket = record { incoming = pieces; writable = 1; sent = [] }

abbrev open_connection : Connection
open_connection = record { sock = some socket; mac_ex_mode = true; send_setup = true }

abbrev command : Command Bytes
command = record { build_request = ok (0x1c ∷ 7 ∷ []); parse_response = λ bs. ok bs }

ready : Ready open_connection stream [] 1
ready = record { socket = socket; is_open = refl; arrives = refl; has_sent = refl; can_send = refl }

frames : Frames parse_header stream (unpack_header head) body (9 ∷ [])
unfolding parse_header
frames = record {
  header_bytes = head;
  comes = refl;
  header_length = refl;
  parses = refl;
  raw_length = refl;
}

mac-Frames : Frames parse_mac_header stream (unpack_header head) body (9 ∷ [])
unfolding parse_mac_header
mac-Frames = record {
  header_bytes = head;
  comes = refl;
  header_length = refl;
  parses = refl;
  raw_length = refl;
}

recv_exact-stream_example :
    (es' : List Event) × (recv_exact transport_error 4 pieces
      ≡ (ok (0xb1 ∷ 0xcb ∷ 0x74 ∷ 0 ∷ []), es'))
    × (bytes_of es' ≡ drop 4 stream)
recv_exact-stream_example = recv_exact-stream transport_error 4 pieces (omega arith)

execute-Ready_example :
    ((Ex.execute stored_zlib command open_connection).0
      ≡ answer stored_zlib command (unpack_header head, body))
    × Ready (Ex.execute stored_zlib command open_connection).1 (9 ∷ []) ((1 ∷ 7 ∷ []) ∷ []) 0
execute-Ready_example =
    execute-Ready stored_zlib command open_connection stream [] 0 (0x1c ∷ 7 ∷ [])
      (unpack_header head) body (9 ∷ []) ready refl frames

connect-Ready_example :
    ((Ex.connect (3 ∷ []) (ok socket) (ok tt) (Ex.new_connection false true)).0 ≡ ok tt)
    × Ready
        (Ex.connect (3 ∷ []) (ok socket) (ok tt) (Ex.new_connection false true)).1
        (9 ∷ [])
        ((3 ∷ []) ∷ [])
        0
connect-Ready_example =
    connect-Ready (3 ∷ []) socket (Ex.new_connection false true) (unpack_header head) body (9 ∷ [])
      refl frames (omega arith)

-- A server that stops in the middle of its answer to the handshake
abbrev cut_socket : Socket
cut_socket = record { incoming = piece (take 3 stream) ∷ timeout ∷ []; writable = 1; sent = [] }

connect-AllOrNothing_example :
    AllOrNothing (Ex.connect (3 ∷ []) (ok cut_socket) (ok tt) (Ex.new_connection false true))
connect-AllOrNothing_example =
    connect-AllOrNothing (3 ∷ []) cut_socket (ok tt) (Ex.new_connection false true) tt

mac_execute-Ready_example :
    ((Mac.execute stored_zlib command open_connection).0
      ≡ answer stored_zlib command (unpack_header head, body))
    × Ready (Mac.execute stored_zlib command open_connection).1 (9 ∷ []) ((0x1c ∷ 7 ∷ []) ∷ []) 0
mac_execute-Ready_example =
    mac_execute-Ready stored_zlib command open_connection stream [] 0 (0x1c ∷ 7 ∷ [])
      (unpack_header head) body (9 ∷ []) ready refl mac-Frames

abbrev slow_socket : Socket
slow_socket = record { incoming = timeout ∷ pieces; writable = 2; sent = [] }

abbrev slow_connection : Connection
slow_connection = record { sock = some slow_socket; mac_ex_mode = false; send_setup = false }

execute_after_timeout_example :
    ((Mac.execute stored_zlib command slow_connection).0 ≡ err response_timeout)
    × ((Mac.execute stored_zlib command (Mac.execute stored_zlib command slow_connection).1).0
        ≡ answer stored_zlib command (unpack_header head, body))
execute_after_timeout_example =
    execute_after_timeout stored_zlib command command slow_connection slow_socket pieces
      (0x1c ∷ 7 ∷ []) (0x1c ∷ 7 ∷ []) (unpack_header head) body (9 ∷ []) refl refl (omega arith)
      refl refl mac-Frames
