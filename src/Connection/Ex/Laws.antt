-- ===== src/Connection/Ex/Laws.antt =====
-- What `connect` and `execute` of `ExTdxConnection` do with the stream.
use eltdx.Base.{
  ℕ, suc, ◌-◌, ◌<◌, ◌≡◌, refl, Bool, true, false, List, [], ◌∷◌, ◌++◌, none, some, if◌then◌else◌,
  Result, Error, ok, err, arith, transport_error, protocol_error, os_error, socket_timeout,
  file_not_found, Bool-cases, ◌==◌, ltb, length, ap, ◌≢◌, ◌⊎◌, inl, inr,
}
use eltdx.Wire.{Bytes}
use eltdx.Frame.{FrameHeader, Zlib, parse_header, header_size}
use eltdx.Stream.{Socket, sendall}
use eltdx.Stream.Failing.{Fails, recv_exact-Fails}
use eltdx.Stream.Exact.{bytes_of}
use eltdx.Connection.{Command, Connection, answer, keep, exchange, Io, and_then, recv, lift}
use eltdx.Connection.Exchange.{Ready, Frames, exchange-Frames}
use eltdx.Connection.Ex.{execute, connect, ex_request, execute_open, opened, handshake, given_up}

execute_run :
    {A : Type 0} (zlib : Zlib) (cmd : Command A) (c : Connection) (s s' : Socket) (request : Bytes)
    (frame : FrameHeader × Bytes)
    → c.sock ≡ some s
    → cmd.build_request ≡ ok request
    → exchange transport_error parse_header (ex_request c.mac_ex_mode request) s ≡ (ok frame, s')
    → execute zlib cmd c ≡ keep c (answer zlib cmd frame, s')
unfolding execute
execute_run zlib cmd c s s' request frame opened built e =
    rw (opened, execute) (rw (built, execute_open) (rw e refl))

-- A command whose answer is the next frame of the stream gets the value that its own
-- `parse_response` reads from that frame; its request is sent once, and the stream stands at the
-- byte behind the frame, so the next command finds its own answer.
pub execute-Ready :
    {A : Type 0} (zlib : Zlib) (cmd : Command A) (c : Connection) (incoming : Bytes)
    (sent : List Bytes) (writable : ℕ) (request : Bytes) (header : FrameHeader) (raw rest : Bytes)
    → Ready c incoming sent (suc writable)
    → cmd.build_request ≡ ok request
    → Frames parse_header incoming header raw rest
    → ((execute zlib cmd c).0 ≡ answer zlib cmd (header, raw))
      × Ready (execute zlib cmd c).1 rest (sent ++ ex_request c.mac_ex_mode request ∷ []) writable
unfolding execute
execute-Ready zlib cmd c incoming sent writable request header raw rest ready built frames =
    let (s', e, left, log, room) =
      exchange-Frames transport_error parse_header (ex_request c.mac_ex_mode request) ready.socket
        header raw rest (rw ready.arrives frames) (rw ready.can_send (omega arith)) in
    let run = execute_run zlib cmd c ready.socket s' request (header, raw) ready.is_open built e in
    (
      ap (λ p. p.0) run,
      rw run (record {
        socket = s';
        is_open = refl;
        arrives = left;
        has_sent = rw log (ap (λ l. l ++ ex_request c.mac_ex_mode request ∷ []) ready.has_sent);
        can_send = omega (arith, room, ready.can_send);
      }),
    )

-- Connecting with the session handshake reads the server's answer to it whole: behind it the
-- connection is ready, and the stream stands where the answers to commands begin.
pub connect-Ready :
    (setup_package : Bytes) (s : Socket) (c : Connection) (header : FrameHeader) (raw rest : Bytes)
    → c.send_setup ≡ true
    → Frames parse_header (bytes_of s.incoming) header raw rest
    → 0 < s.writable
    → ((connect setup_package (ok s) (ok tt) c).0 ≡ ok tt)
      × Ready
          (connect setup_package (ok s) (ok tt) c).1
          rest
          (s.sent ++ setup_package ∷ [])
          (s.writable - 1)
unfolding connect
connect-Ready setup_package s c header raw rest setup frames w =
    let (s', e, left, log, room) =
      exchange-Frames transport_error parse_header setup_package s header raw rest frames w in
    let run : connect setup_package (ok s) (ok tt) c ≡ (ok tt, record c { sock = some s' }) =
      rw (setup, connect) (rw e refl) in
    (
      ap (λ p. p.0) run,
      rw run
          (record { socket = s'; is_open = refl; arrives = left; has_sent = log; can_send = room }),
    )

-- A socket after success, `TransportError` and none otherwise.
abbrev pub AllOrNothing : Result (Unit {0}) × Connection → Type 0
AllOrNothing (r, c) =
    ((r ≡ ok tt) × (c.sock ≢ none)) ⊎ ((r ≡ err transport_error) × (c.sock ≡ none))

-- The exceptions of Python's sockets, and the one of the program's own that a broken stream gives
-- rise to.
pub data IsOsError : Error → Type 0 where
  failure : IsOsError os_error
  late : IsOsError socket_timeout
  no_file : IsOsError file_not_found

data IsExpected : Error → Type 0 where
  from_os : (e : Error) → IsOsError e → IsExpected e
  from_stream : IsExpected transport_error
  from_header : IsExpected protocol_error

and_then-Fails :
    {A B : Type 0} (r : Result A × Socket) (f : A → Io B)
    → Fails IsExpected r.0
    → ((a : A) (s : Socket) → Fails IsExpected (f a s).0)
    → Fails IsExpected (and_then r f).0
and_then-Fails (ok a, s) f first next = next a s
and_then-Fails (err e, s) f first next = first

sendall-Fails : (bs : Bytes) (s : Socket) → Fails IsExpected (sendall bs s).0
sendall-Fails bs s = elim (Bool-cases (s.writable == 0)) [
  | inl full ↦ rw full (from_os os_error failure)
  | inr room ↦ rw room tt
]

recv-Fails : (n : ℕ) (s : Socket) → Fails IsExpected (recv transport_error n s).0
recv-Fails n s =
    recv_exact-Fails IsExpected transport_error from_stream (from_os os_error failure)
      (from_os socket_timeout late) n s.incoming

parse_header-Fails : (buf : Bytes) → Fails IsExpected (parse_header buf)
unfolding parse_header
parse_header-Fails buf = elim (Bool-cases (ltb (length buf) header_size)) [
  | inl short ↦ rw short from_header
  | inr whole ↦ rw whole tt
]

handshake-Fails :
    (setup_package : Bytes) (s : Socket) → Fails IsExpected (handshake setup_package s).0
unfolding exchange
handshake-Fails setup_package s =
    and_then-Fails (sendall setup_package s) _ (sendall-Fails setup_package s) (λ _ s1.
      and_then-Fails (recv transport_error header_size s1) _ (recv-Fails header_size s1) (λ buf s2.
        and_then-Fails (lift (parse_header buf) s2) _ (parse_header-Fails buf) (λ header s3.
          and_then-Fails (recv transport_error header.zipsize s3) _ (recv-Fails header.zipsize s3)
            (λ _ _. tt))))

given_up-AllOrNothing :
    (c : Connection) (e : Error) (s : Socket) → IsExpected e → AllOrNothing (given_up c e s)
given_up-AllOrNothing c e s (from_os _ failure) = inr (refl, refl)
given_up-AllOrNothing c e s (from_os _ late) = inr (refl, refl)
given_up-AllOrNothing c e s (from_os _ no_file) = inr (refl, refl)
given_up-AllOrNothing c e s from_stream = inr (refl, refl)
given_up-AllOrNothing c e s from_header = inr (refl, refl)

opened-AllOrNothing :
    (c : Connection) (r : Result (FrameHeader × Bytes) × Socket)
    → Fails IsExpected r.0
    → AllOrNothing (opened c r)
opened-AllOrNothing c (ok frame, s) expected = inl (refl, λ e. cc)
opened-AllOrNothing c (err e, s) expected = given_up-AllOrNothing c e s expected

if-AllOrNothing :
    (b : Bool) (x y : Result (Unit {0}) × Connection)
    → AllOrNothing x
    → AllOrNothing y
    → AllOrNothing (if b then x else y)
if-AllOrNothing true x y hx hy = hx
if-AllOrNothing false x y hx hy = hy

-- Once it has made a socket, `connect` either succeeds and holds it, or raises `TransportError` and
-- holds none, whatever the server does in the handshake, where an exception of `sock.connect` is an
-- `OSError`.
pub connect-AllOrNothing :
    (setup_package : Bytes) (s : Socket) (dialled : Result (Unit {0})) (c : Connection)
    → Fails IsOsError dialled
    → AllOrNothing (connect setup_package (ok s) dialled c)
unfolding connect
connect-AllOrNothing setup_package s (err e) c expected =
    given_up-AllOrNothing c e s (from_os e expected)
connect-AllOrNothing setup_package s (ok _) c expected =
    if-AllOrNothing c.send_setup _ _
      (opened-AllOrNothing c (handshake setup_package s) (handshake-Fails setup_package s))
      (inl (refl, λ e. cc))
