-- ===== src/Pool/Transport.antt =====
-- `PooledSocketTransport` and `PinnedTransportProxy` of src/eltdx/transport/pool.py, around the
-- native engine, which is a record of functions on a state `W` of its own. Hosts are texts as
-- `normalize_host` gives them, and that function is an argument.
pub mod Engine
pub mod Pinned
pub mod Epochs
use eltdx.Base.{
  ℕ, Bool, true, false, not, ◌&&◌, ◌||◌, List, [], ◌∷◌, ◌++◌, Option, none, some, Result, ok, err,
  Error, value_error, connection_closed, ◌==◌, if◌then◌else◌,
}
use eltdx.Base.Effect.{Effect, ◌>>=◌, ◌>>◌, pure, raise, raise_when, attempt}
use eltdx.Protocol.Text.{Text, member, text_eq, codes}

-- What is called on the engine or on a pin of it, by the command where there is one.
pub data NativeCall : Type 0 where
  connect_call : NativeCall
  close_call : NativeCall
  execute_call : ℕ → NativeCall
  poll_push_call : NativeCall
  drain_pushes_call : NativeCall
  pin_execute : ℕ → ℕ → NativeCall
  pin_close : ℕ → NativeCall

pub data PoolState : Type 0 where
  stopped_state : PoolState
  starting_state : PoolState
  running_state : PoolState
  closing_state : PoolState
  failed_state : PoolState
  failed_closing_state : PoolState
  failed_closed_state : PoolState

abbrev pub is_running : PoolState → Bool
is_running running_state = true
is_running _ = false

pub record Native (W Value : Type 0) : Type 0 where
  -- `NativeEngine(hosts, ...)`
  pub construct : List Text → W → Result (Unit {0}) × W
  -- `sort_hosts_by_latency`
  pub sort_hosts : List Text → W → List Text × W
  pub run_call : NativeCall → W → Result Value × W
  -- `engine.pin()`
  pub take_pin : W → Result ℕ × W
  -- the epoch and the state of `pool_diagnostics()`
  pub pool_diagnostics : W → Result (ℕ × PoolState) × W

pub record Transport : Type 0 where
  pub hosts : List Text
  pub hosts_probed : Bool
  pub has_engine : Bool

-- `_pool`, `_native_pin`, `_epoch` and `_closed` of a proxy; the pool is the state behind it.
pub record Proxy : Type 0 where
  pub native_pin : ℕ
  pub epoch : ℕ
  pub closed : Bool

abbrev pub State : Type 0 → Type 0
State W = Transport × W

abbrev pub Method : Type 0 → Type 0 → Type 0
Method W A = Effect (State W) A

-- `unique_hosts`
abbrev pub add_host : (Text → Option Text) → List Text → List Text → List Text
add_host normalize_host hosts [] = hosts
add_host normalize_host hosts (value ∷ values) = elim (normalize_host value) [
  | none ↦ add_host normalize_host hosts values
  | some host ↦
      add_host normalize_host (if member host hosts then hosts else hosts ++ host ∷ []) values
]

abbrev pub unique_hosts : (Text → Option Text) → List Text → List Text
unique_hosts normalize_host values = add_host normalize_host [] values

abbrev pub all_in : List Text → List Text → Bool
all_in [] others = true
all_in (host ∷ hosts) others = member host others && all_in hosts others

-- `set(ranked) == set(hosts)`
abbrev pub same_set : List Text → List Text → Bool
same_set us vs = all_in us vs && all_in vs us

-- `self._engine = None` and `self._hosts_probed` of the constructor
abbrev pub new_transport : List Text → Bool → Transport
new_transport hosts probe_hosts = record {
  hosts = hosts;
  hosts_probed = not probe_hosts || is_short hosts;
  has_engine = false;
}
  where
    is_short : List Text → Bool
    is_short (_ ∷ _ ∷ _) = false
    is_short _ = true

-- The hosts before and after a ranking, where there is no engine.
abbrev pub ranked_by : Bool → List Text → Transport → Transport
ranked_by true ranked t = t
ranked_by false ranked t = record t { hosts = ranked; hosts_probed = true }

abbrev pub ranked_hosts : List Text → Transport → Transport
ranked_hosts ranked t = ranked_by t.has_engine ranked t

module _ {W : Type 0} where
  unfoldable pub read : {A : Type 0} → (Transport → A) → Method W A
  read f (t, w) = (ok (f t), (t, w))

  unfoldable pub call : {A : Type 0} → (W → Result A × W) → Method W A
  call f (t, w) = let r = f w in (r.0, (t, r.1))

  unfoldable pub update : (Transport → Transport) → Method W (Unit {0})
  update f (t, w) = (ok tt, (f t, w))

  -- `_set_ranked_hosts`
  unfoldable pub set_ranked_hosts : (Text → Option Text) → List Text → Method W (Unit {0})
  set_ranked_hosts normalize_host values = do
    hosts ← read (λ t. t.hosts)
    raise_when (not (same_set (unique_hosts normalize_host values) hosts)) value_error
    update (ranked_hosts (unique_hosts normalize_host values))

module _ {W Value : Type 0} (native : Native W Value) where
  -- The ranking by latency before the first connection.
  unfoldable pub sort_once : Bool → Method W (Unit {0})
  sort_once true st = (ok tt, st)
  sort_once false (t, w) =
      let r = native.sort_hosts t.hosts w in
      (ok tt, (record t { hosts = r.0; hosts_probed = true }, r.1))

  unfoldable pub probe : Method W (Unit {0})
  probe st = sort_once st.0.hosts_probed st

  abbrev pub engine_set : Result (Unit {0}) → Transport → W → Result (Unit {0}) × State W
  engine_set (ok _) t w = (ok tt, (record t { has_engine = true }, w))
  engine_set (err e) t w = (err e, (t, w))

  unfoldable pub construct_engine : Method W (Unit {0})
  construct_engine (t, w) = let r = native.construct t.hosts w in engine_set r.0 t r.1

  -- `_native`: `if self._engine is not None: return self._engine`
  unfoldable pub build_once : Bool → Method W (Unit {0})
  build_once true = pure tt
  build_once false = do probe; construct_engine

  unfoldable pub native_engine : Method W (Unit {0})
  native_engine st = build_once st.0.has_engine st

  -- `connect` and `execute`
  unfoldable pub on_engine : NativeCall → Method W Value
  on_engine request = do native_engine; call (native.run_call request)

  -- `close`, and the other methods that do nothing without an engine
  unfoldable pub on_open_engine : NativeCall → Method W (Option Value)
  on_open_engine request = do
    built ← read (λ t. t.has_engine)
    if built then (do value ← call (native.run_call request); pure (some value)) else pure none

  -- `execute_trade_batch`
  unfoldable pub execute_trade_batch : ℕ → Method W Value
  execute_trade_batch command = do
    raise_when (not (command == 0x0fc6)) value_error
    on_engine (execute_call command)

  -- `diagnostics`, by the epoch and the state
  unfoldable pub diagnostics : Method W (ℕ × PoolState)
  diagnostics = do
    built ← read (λ t. t.has_engine)
    if built then call native.pool_diagnostics else pure (0, stopped_state)

  -- `pin`, as it is entered
  unfoldable pub pin : Method W Proxy
  pin = do
    native_engine
    native_pin ← call native.take_pin
    known ← diagnostics
    pure (record { native_pin = native_pin; epoch = known.0; closed = false })

  -- `_require_open`
  unfoldable pub require_open : Proxy → Method W (Unit {0})
  require_open proxy =
      if proxy.closed
      then raise connection_closed
      else (do known ← diagnostics; raise_when (not (known.0 == proxy.epoch)) connection_closed)

  -- `PinnedTransportProxy.execute`
  unfoldable pub pinned_execute : Proxy → ℕ → Method W Value
  pinned_execute proxy command = do
    require_open proxy
    call (native.run_call (pin_execute proxy.native_pin command))

  -- `PinnedTransportProxy.close`, and the proxy behind it
  unfoldable pub pinned_close : Proxy → Method W Proxy
  pinned_close proxy = if proxy.closed then pure proxy else (do
    known ← diagnostics
    if known.0 == proxy.epoch && is_running known.1
        then (do
          call (native.run_call (pin_close proxy.native_pin))
          pure (record proxy { closed = true }))
        else pure (record proxy { closed = true }))
