-- ===== src/Pool/Config.antt =====
-- The checks of `PooledSocketTransport.__init__`, src/eltdx/transport/pool.py. Numbers are natural,
-- and times are ticks; negative numbers, which are refused like 0, stand outside.
pub mod Laws
use eltdx.Base.{
  ℕ, Bool, true, false, ◌||◌, Option, none, some, Result, ok, err, ◌>>=◌, ◌>>◌, raise_if,
  value_error, ltb, ◌==◌,
}
use eltdx.Pool.Layout.{
  PoolLayout, positive_int, optional_positive_int, resolve_pool_layout, slot_raw_max_bytes,
  slot_decoded_max_bytes,
}

pub record Options : Type 0 where
  pub timeout : ℕ
  pub pool_size : Option ℕ
  pub server_count : ℕ
  pub connections_per_server : Option ℕ
  pub runtime_workers : Option ℕ
  pub max_connections_per_host : Option ℕ
  pub connect_concurrency : Option ℕ
  pub connect_concurrency_per_host : Option ℕ
  pub global_raw_bytes : Option ℕ
  pub global_decoded_bytes : Option ℕ
  pub probe_timeout : ℕ
  pub probe_workers : ℕ
  pub max_pending_requests : ℕ
  pub push_queue_size : ℕ
  pub push_queue_bytes : ℕ

-- `value is not None and value > limit`, and `<`
abbrev pub exceeds : Option ℕ → ℕ → Bool
exceeds none limit = false
exceeds (some value) limit = ltb limit value

abbrev pub falls_below : Option ℕ → ℕ → Bool
falls_below none limit = false
falls_below (some value) limit = ltb value limit

-- `self._connect_concurrency or 1`
abbrev pub or_one : Option ℕ → ℕ
or_one none = 1
or_one (some n) = n

-- The checks in front of the layout.
unfoldable pub check_numbers : ℕ → Options → Result (Unit {0})
check_numbers host_count o = do
  raise_if (host_count == 0) value_error
  raise_if (o.timeout == 0) value_error
  requests ← positive_int o.max_pending_requests
  size ← positive_int o.push_queue_size
  bytes ← positive_int o.push_queue_bytes
  raise_if (o.probe_timeout == 0) value_error
  workers ← positive_int o.probe_workers
  ok tt

-- Those behind it.
unfoldable pub check_workers : Options → PoolLayout → Result (Unit {0})
check_workers o layout = do
  workers ← optional_positive_int o.runtime_workers
  raise_if (exceeds workers layout.pool_size) value_error
  concurrency ← optional_positive_int o.connect_concurrency
  raise_if (exceeds concurrency layout.pool_size) value_error
  per_host ← optional_positive_int o.connect_concurrency_per_host
  raise_if
      (exceeds per_host (or_one concurrency) || exceeds per_host layout.max_connections_per_host)
      value_error

unfoldable pub check_bytes : Options → Result (Unit {0})
check_bytes o = do
  raw ← optional_positive_int o.global_raw_bytes
  raise_if (falls_below raw slot_raw_max_bytes) value_error
  decoded ← optional_positive_int o.global_decoded_bytes
  raise_if (falls_below decoded slot_decoded_max_bytes) value_error

-- The layout that a transport is made with, for its number of hosts
unfoldable pub configure : ℕ → Options → Result PoolLayout
unfolding check_numbers resolve_pool_layout check_workers check_bytes
configure host_count o = do
  check_numbers host_count o
  layout ←
      resolve_pool_layout host_count o.pool_size o.server_count o.connections_per_server
        o.max_connections_per_host
  check_workers o layout
  check_bytes o
  ok layout
