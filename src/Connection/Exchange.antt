-- ===== src/Connection/Exchange.antt =====
-- One request and one frame: what is read, and what stays in the stream.
use eltdx.Base.{
  ℕ, ◌-◌, ◌<◌, ◌≡◌, refl, false, List, [], ◌∷◌, some, ◌++◌, length, length-append, take-append,
  drop-append, ◌==◌, Result, Error, ok, err, arith, ◌∙◌,
}
use eltdx.Wire.{Bytes}
use eltdx.Frame.{FrameHeader, header_size}
use eltdx.Stream.{Event, Socket, sendall}
use eltdx.Stream.Exact.{bytes_of, recv_exact-stream}
use eltdx.Connection.{Connection, Io, exchange, recv, ◌>>=◌, lift}

-- The next `n` bytes of the stream are read, and the rest stays.
pub recv_prefix :
    (closed : Error) (n : ℕ) (s : Socket) (front rest : Bytes)
    → bytes_of s.incoming ≡ front ++ rest
    → length front ≡ n
    → (es : List Event) × (recv closed n s ≡ (ok front, record s { incoming = es }))
      × (bytes_of es ≡ rest)
recv_prefix closed n s front rest e l =
    let (es, r, left) =
      recv_exact-stream closed n s.incoming (rw e (omega (arith, length-append front rest))) in
    (
      es,
      rw r (rw e (rw (take-append n front rest l) refl)),
      left ∙ rw e (drop-append n front rest l),
    )

-- The bytes that come in are a frame, its header and as many bytes as the header says, and then
-- `rest`.
pub record Frames (parse : Bytes → Result FrameHeader) (incoming : Bytes) (header : FrameHeader)
    (raw rest : Bytes) : Type 0 where
  pub header_bytes : Bytes
  pub comes : incoming ≡ header_bytes ++ (raw ++ rest)
  pub header_length : length header_bytes ≡ header_size
  pub parses : parse header_bytes ≡ ok header
  pub raw_length : length raw ≡ header.zipsize

pub bind_ok :
    {A B : Type 0} (m : Io A) (f : A → Io B) (s : Socket) (a : A) (s' : Socket)
    {r : Result B × Socket}
    → m s ≡ (ok a, s')
    → f a s' ≡ r
    → (m >>= f) s ≡ r
bind_ok m f s a s' e h = rw e h

pub bind_err :
    {A B : Type 0} (m : Io A) (f : A → Io B) (s : Socket) (e : Error) (s' : Socket)
    → m s ≡ (err e, s')
    → (m >>= f) s ≡ (err e, s')
bind_err m f s e s' h = rw h refl

-- A frame read by `exchange` leaves the stream at the byte behind it.
pub exchange-Frames :
    (closed : Error) (parse : Bytes → Result FrameHeader) (request : Bytes) (s : Socket)
    (header : FrameHeader) (raw rest : Bytes)
    → Frames parse (bytes_of s.incoming) header raw rest
    → 0 < s.writable
    → (s' : Socket) × (exchange closed parse request s ≡ (ok (header, raw), s'))
      × (bytes_of s'.incoming ≡ rest)
      × (s'.sent ≡ s.sent ++ request ∷ [])
      × (s'.writable ≡ s.writable - 1)
unfolding exchange
exchange-Frames closed parse request s header raw rest f w =
    let can : (s.writable == 0) ≡ false = ground arith in
    let s1 : Socket = record s { writable = s.writable - 1; sent = s.sent ++ request ∷ [] } in
    let (es1, r1, left1) =
      recv_prefix closed header_size s1 f.header_bytes (raw ++ rest) f.comes f.header_length in
    let s2 : Socket = record s1 { incoming = es1 } in
    let (es2, r2, left2) = recv_prefix closed header.zipsize s2 raw rest left1 f.raw_length in
    (
      record s2 { incoming = es2 },
      bind_ok (sendall request) _ s tt s1 (rw can refl) (
          bind_ok (recv closed header_size) _ s1 f.header_bytes s2 r1 (
            bind_ok (lift (parse f.header_bytes)) _ s2 header s2 (rw f.parses refl) (
              bind_ok (recv closed header.zipsize) _ s2 raw (record s2 { incoming = es2 }) r2
                refl))),
      left2,
      refl,
      refl,
    )

-- The connection holds a socket on which exactly `incoming` has still to arrive and `writable` more
-- requests can be sent, after the requests in `sent`.
pub record Ready (c : Connection) (incoming : Bytes) (sent : List Bytes) (writable : ℕ)
    : Type 0 where
  pub socket : Socket
  pub is_open : c.sock ≡ some socket
  pub arrives : bytes_of socket.incoming ≡ incoming
  pub has_sent : socket.sent ≡ sent
  pub can_send : socket.writable ≡ writable
