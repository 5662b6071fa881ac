-- ===== src/Connection/Mac/Laws.antt =====
-- What `connect` and `execute` of `MacConnection` do with the stream.
use eltdx.Base.{
  ℕ, suc, ◌-◌, ◌<◌, ◌≡◌, refl, ap, false, List, [], ◌∷◌, ◌++◌, some, ok, err, arith,
  connection_closed, response_timeout, socket_timeout, ◌==◌,
}
use eltdx.Wire.{Bytes}
use eltdx.Frame.{FrameHeader, Zlib, parse_mac_header, header_size}
use eltdx.Stream.{Socket, Event, timeout, sendall, recv_exact}
use eltdx.Stream.Exact.{bytes_of}
use eltdx.Connection.{Command, Connection, answer, exchange, keep, recv}
use eltdx.Connection.Exchange.{Ready, Frames, exchange-Frames, bind_ok, bind_err}
use eltdx.Connection.Mac.{execute, execute_open}

execute_run :
    {A : Type 0} (zlib : Zlib) (cmd : Command A) (c : Connection) (s s' : Socket) (request : Bytes)
    (frame : FrameHeader × Bytes)
    → c.sock ≡ some s
    → cmd.build_request ≡ ok request
    → exchange connection_closed parse_mac_header request s ≡ (ok frame, s')
    → execute zlib cmd c ≡ keep c (answer zlib cmd frame, s')
unfolding execute
execute_run zlib cmd c s s' request frame opened built e =
    rw (opened, execute) (rw (built, execute_open) (rw e refl))

-- A command whose answer is the next frame of the stream gets the value that its own
-- `parse_response` reads from that frame; its request is sent once, unchanged, and the stream
-- stands at the byte behind the frame.
pub mac_execute-Ready :
    {A : Type 0} (zlib : Zlib) (cmd : Command A) (c : Connection) (incoming : Bytes)
    (sent : List Bytes) (writable : ℕ) (request : Bytes) (header : FrameHeader) (raw rest : Bytes)
    → Ready c incoming sent (suc writable)
    → cmd.build_request ≡ ok request
    → Frames parse_mac_header incoming header raw rest
    → ((execute zlib cmd c).0 ≡ answer zlib cmd (header, raw))
      × Ready (execute zlib cmd c).1 rest (sent ++ request ∷ []) writable
unfolding execute
mac_execute-Ready zlib cmd c incoming sent writable request header raw rest ready built frames =
    let (s', e, left, log, room) =
      exchange-Frames connection_closed parse_mac_header request ready.socket header raw rest
        (rw ready.arrives frames) (rw ready.can_send (omega arith)) in
    let run = execute_run zlib cmd c ready.socket s' request (header, raw) ready.is_open built e in
    (
      ap (λ p. p.0) run,
      rw run (record {
        socket = s';
        is_open = refl;
        arrives = left;
        has_sent = rw log (ap (λ l. l ++ request ∷ []) ready.has_sent);
        can_send = omega (arith, room, ready.can_send);
      }),
    )

recv_timeout :
    (s : Socket) (es : List Event)
    → s.incoming ≡ timeout ∷ es
    → recv connection_closed header_size s ≡ (err socket_timeout, record s { incoming = es })
unfolding recv_exact
recv_timeout s es e =
    ap
      (λ (arriving : List Event).
        let (r, es') = recv_exact connection_closed header_size arriving in
        (r, record s { incoming = es' }))
      e

-- A timeout before the first byte of the answer.
exchange_timeout :
    (request : Bytes) (s : Socket) (es : List Event)
    → s.incoming ≡ timeout ∷ es
    → 0 < s.writable
    → exchange connection_closed parse_mac_header request s ≡ (
      err socket_timeout,
      record s { incoming = es; writable = s.writable - 1; sent = s.sent ++ request ∷ [] },
    )
unfolding exchange
exchange_timeout request s es e w =
    let can : (s.writable == 0) ≡ false = ground arith in
    let s1 : Socket = record s { writable = s.writable - 1; sent = s.sent ++ request ∷ [] } in
    bind_ok (sendall request) _ s tt s1 (rw can refl) (
      bind_err (recv connection_closed header_size) _ s1 socket_timeout
        (record s1 { incoming = es }) (recv_timeout s1 es e))

execute_timeout :
    {A : Type 0} (zlib : Zlib) (cmd : Command A) (c : Connection) (s : Socket) (es : List Event)
    (request : Bytes)
    → c.sock ≡ some s
    → s.incoming ≡ timeout ∷ es
    → 0 < s.writable
    → cmd.build_request ≡ ok request
    → execute zlib cmd c
      ≡ keep c (
        err response_timeout,
        record s { incoming = es; writable = s.writable - 1; sent = s.sent ++ request ∷ [] },
      )
unfolding execute
execute_timeout zlib cmd c s es request opened late w built =
    rw (opened, execute) (rw (built, execute_open) (rw (exchange_timeout request s es late w) refl))

-- After a timeout the connection stays open and no sequence number is compared: when the answer to
-- the command that timed out comes late, the next command takes it for its own.
pub execute_after_timeout :
    {A B : Type 0} (zlib : Zlib) (first : Command A) (second : Command B) (c : Connection)
    (s : Socket) (es : List Event) (request request' : Bytes) (late : FrameHeader)
    (raw rest : Bytes)
    → c.sock ≡ some s
    → s.incoming ≡ timeout ∷ es
    → 1 < s.writable
    → first.build_request ≡ ok request
    → second.build_request ≡ ok request'
    → Frames parse_mac_header (bytes_of es) late raw rest
    → ((execute zlib first c).0 ≡ err response_timeout)
      × ((execute zlib second (execute zlib first c).1).0 ≡ answer zlib second (late, raw))
execute_after_timeout zlib first second c s es request request' late raw rest opened waits w built
      built' frames =
    let run = execute_timeout zlib first c s es request opened waits (omega arith) built in
    let again : Socket = record s {
      incoming = es;
      writable = s.writable - 1;
      sent = s.sent ++ request ∷ [];
    } in
    let ready : Ready (record c { sock = some again }) (bytes_of es) again.sent
        (suc (s.writable - 2)) =
      record {
        socket = again;
        is_open = refl;
        arrives = refl;
        has_sent = refl;
        can_send = omega arith;
      } in
    (
      ap (λ p. p.0) run,
      rw run
          (mac_execute-Ready zlib second (record c { sock = some again }) (bytes_of es) again.sent
            (s.writable - 2) request' late raw rest ready built' frames).0,
    )
