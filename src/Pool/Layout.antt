-- ===== src/Pool/Layout.antt =====
-- How many connections go to how many servers: `resolve_pool_layout` and the automatic limits on
-- buffered bytes of src/eltdx/transport/_config.py. Negative numbers and values that are no
-- numbers, which `positive_int` refuses too, stand outside.
pub mod Laws
use eltdx.Base.{
  ℕ, zero, suc, ◌+◌, ◌-◌, ◌*◌, ◌/◌, min, max, Bool, true, false, not, Option, none, some, Result,
  ok, err, ◌>>=◌, ◌>>◌, raise_if, value_error, ltb, ◌==◌, if◌then◌else◌,
}

abbrev pub default_connections_per_server : ℕ
default_connections_per_server = 1

abbrev pub slot_raw_max_bytes : ℕ
slot_raw_max_bytes = 256 * 1024 + 16 + 65535

abbrev pub slot_decoded_max_bytes : ℕ
slot_decoded_max_bytes = 8 * 1024 * 1024

abbrev pub default_global_raw_cap_bytes : ℕ
default_global_raw_cap_bytes = 256 * 1024 * 1024

abbrev pub default_global_decoded_cap_bytes : ℕ
default_global_decoded_cap_bytes = 2 * 1024 * 1024 * 1024

pub record PoolLayout : Type 0 where
  pub pool_size : ℕ
  pub server_count : ℕ
  pub connections_per_server : ℕ
  pub max_connections_per_host : ℕ

abbrev pub automatic_raw_bytes : ℕ → ℕ
automatic_raw_bytes pool_size =
    max slot_raw_max_bytes (min (pool_size * slot_raw_max_bytes) default_global_raw_cap_bytes)

abbrev pub automatic_decoded_bytes : ℕ → ℕ
automatic_decoded_bytes pool_size =
    max slot_decoded_max_bytes
      (min (pool_size * slot_decoded_max_bytes) default_global_decoded_cap_bytes)

abbrev pub positive_int : ℕ → Result ℕ
positive_int value = raise_if (value == 0) value_error >> ok value

abbrev pub optional_positive_int : Option ℕ → Result (Option ℕ)
optional_positive_int none = ok none
optional_positive_int (some value) = do n ← positive_int value; ok (some n)

-- The whole number at or above `total / parts`
abbrev pub ceiling : ℕ → ℕ → ℕ
ceiling total parts = (total + parts - 1) / parts

-- `connections_per_server or DEFAULT_CONNECTIONS_PER_SERVER`
abbrev pub or_default : Option ℕ → ℕ
or_default none = default_connections_per_server
or_default (some n) = n

-- `connections_per_server` of a given pool size has to fit it.
abbrev pub check_product : ℕ → ℕ → Option ℕ → Result (Unit {0})
check_product total active_servers none = ok tt
check_product total active_servers (some n) =
    raise_if (not (total == active_servers * n)) value_error

-- The total, the servers and the connections of each, before the capacity of a host is checked.
abbrev pub distribute : ℕ → Option ℕ → ℕ → Option ℕ → Result (ℕ × ℕ × ℕ)
distribute host_count none requested_servers connections_per_server =
    let active_servers : ℕ = min requested_servers host_count in
    let per_server = or_default connections_per_server in
    ok (active_servers * per_server, active_servers, per_server)
distribute host_count (some total) requested_servers connections_per_server =
    let active_servers : ℕ = min (min requested_servers host_count) total in
    do
      check_product total active_servers connections_per_server
      ok (total, active_servers, ceiling total active_servers)

abbrev pub capacity_or : Option ℕ → ℕ → ℕ
capacity_or none minimum = minimum
capacity_or (some n) minimum = n

-- The capacity of a host has to hold its part of the pool.
abbrev pub with_capacity : Option ℕ → ℕ × ℕ × ℕ → Result PoolLayout
with_capacity max_connections_per_host (total, active_servers, per_server) =
    let minimum = ceiling total active_servers in
    do
      limit ← optional_positive_int max_connections_per_host
      raise_if (ltb (capacity_or limit minimum) minimum) value_error
      ok (record {
        pool_size = total;
        server_count = active_servers;
        connections_per_server = per_server;
        max_connections_per_host = capacity_or limit minimum;
      })

unfoldable pub resolve_pool_layout : ℕ → Option ℕ → ℕ → Option ℕ → Option ℕ → Result PoolLayout
resolve_pool_layout host_count pool_size server_count connections_per_server
      max_connections_per_host =
    do
      hosts ← positive_int host_count
      requested ← positive_int server_count
      size ← optional_positive_int pool_size
      per_server ← optional_positive_int connections_per_server
      parts ← distribute hosts size requested per_server
      with_capacity max_connections_per_host parts
