-- ===== src/Lib.antt =====
-- A model of the Python part of eltdx, a client for the TDX market data services, and proofs about it.
--
-- The program's core is a set of byte formats and the loops around them. A command builds request
-- bytes; a connection sends them, reads a header of sixteen bytes and as many bytes as it announces
-- from a socket, inflates them within a bound, and hands them to the command's parser. Above that,
-- pages of records are put together, a batch that failed is halved until the codes that are missing
-- are known, and a subscription keeps connections of the pool, renews its groups of codes and hands
-- pushed records to a callback; beside it, local data files of fixed-size records are read and
-- appended to.
--
-- The files and the code they model (paths under src/eltdx):
--   Base          Python's exceptions as `Result`, lists measured by native numbers, integers,
--                 slices, and methods that change an object and may raise (Effect)
--   Wire          `bytes`, slices, `struct` integers, loops over records of one size
--   Protocol      protocol/unit.py: Text (the string methods it uses), Code (`normalize_code`,
--                 `split_code`, `price_divisor`), Varint (`consume_varint`, `decode_k`)
--   Frame         ex/frame.py, mac/codec.py, protocol/decompress.py, the _binary.py helpers
--   Stream        `_recv_exact` of mac/transport.py and ex/transport/sync.py
--   Connection    `ExTdxConnection` (Ex) and `MacConnection` (Mac): connect, execute, close
--   Offline       Append (alignment.py, `_append` of write_min_bar.py), Daily, MinBar, ExDaily
--                 (their readers, encoders and writers), Security (kinds by file name), Floats
--   Ex            the commands of ex/commands: Transaction (get_transaction.py), Range
--                 (get_history_bars_range.py), Bars (get_instrument_bars.py with ex/datetime_.py),
--                 Minute, Instruments (markets, instruments and their number), QuoteList, Quote
--                 (get_instrument_quote.py), Login; and HkTransaction (ex/_hk_transaction.py)
--   Api           Trades: the page loops of api/trades.py; Batch: api/_batch.py; Subscription:
--                 `QuoteSubscription` of api/subscription.py, its constructor in the parent, then
--                 Run (connections, `activate`, `close`), Rounds (`run_once`, `_dispatch`) and Loop
--                 (`run`)
--   BarTime       _bar_time.py
--   Mac           PriceRules: mac/price_rules.py; Adjust: mac/adjust.py
--   Workday       workday.py
--   Pool          Layout: transport/_config.py; Config and Transport: the checks and the engine of
--                 `PooledSocketTransport`, and `PinnedTransportProxy`, in transport/pool.py
--   Tests         runs of the theorems at concrete inputs
--
-- State is passed explicitly: a socket is the list of what the network will hand over (pieces,
-- timeouts, resets) with what was sent; a connection is a record with an optional socket; a file is
-- its bytes or none. Exceptions are the constructors of `Error`. An interleaving of threads on one
-- connection is excluded by the lock that `execute` takes, which is not modelled. What a
-- subscription or a recovery calls (`refresh`, `poll_push`, `pin`, the callbacks, the clock,
-- `query`), and the native engine of a pool, are functions on a state of their own; each call of a
-- subscription says whether `stop()` was called meanwhile, by the callee or by another thread.
--
-- Parameters: `Zlib` stands for the standard library's inflater with the bound on its output that is
-- documented; `Floats` for Python's floats and the float fields of `struct`; `execute` and `query`
-- of the page loops for the server behind a client; `gbk` and `utf8` for decoders of text; the
-- `normalize_host` of a pool is any function on texts. Characters are code points; digits and
-- white space are those of Unicode 14, and only the letters of ASCII are made small.
--
-- Fuel: `recv_loop` gets n + 1 rounds, since each round adds a byte; `fetch_loop` gets count + 1,
-- since each page that is not the last has a record; the loops of Api.Trades take the number of
-- requests as an argument, and the theorem about them says how many are enough; the search for a
-- weekday gets seven steps; `fetch` of Api.Batch gets as many levels as there are codes, since a half
-- is shorter than its part; `run` of a subscription takes the number of rounds as an argument. The
-- other loops are recursion on their data.
--
-- Not modelled: the Rust crates and the classes that pass calls on to them (client.py,
-- transport/socket.py, most of api), the F10 and statistics modules, the command line, HTTP and MCP
-- servers, lists of hosts and their probes, text in GBK, date and time objects, the client of
-- the extended markets, which passes parameters on, the other local files,
-- the MAC commands and their bitmap, `KeyboardInterrupt`, and callbacks of a subscription that call other methods of
-- it than `stop()`. Times of a subscription are whole ticks of its clock.

pub mod Base
pub mod Wire
pub mod Protocol
pub mod Frame
pub mod Stream
pub mod Connection
pub mod Offline
pub mod Ex
pub mod Api
pub mod BarTime
pub mod Mac
pub mod Workday
pub mod Pool
pub mod Tests
