-- ===== src/Pool/Layout/Laws.antt =====
-- What a resolved layout promises.
use eltdx.Base.{
  ℕ, zero, suc, ◌+◌, ◌-◌, ◌*◌, ◌≤◌, ◌<◌, ◌≡◌, refl, min, Option, none, some, ok, >>=-eq-ok,
  raise_if, value_error, ltb, arith,
}
use native.Mathlib.Nat.{div-add-mod', mod-lt, mul-le-mul_right}
use eltdx.Pool.Layout.{
  PoolLayout, positive_int, optional_positive_int, ceiling, distribute, with_capacity, or_default,
  capacity_or, resolve_pool_layout, check_product,
}

ceiling_covers : (total parts : ℕ) → 0 < parts → total ≤ ceiling total parts * parts
ceiling_covers total parts h =
    omega (arith, div-add-mod' (total + parts - 1) parts, mod-lt (total + parts - 1) h, h)

positive_int-ok : (n m : ℕ) → positive_int n ≡ ok m → (m ≡ n) × (0 < m)
positive_int-ok zero m h = absurd (ground (arith, h))
positive_int-ok (suc n) m h =
    let same : m ≡ suc n = ground (arith, h) in (same, rw same (omega arith))

-- Optional numbers that were checked are positive.
abbrev IsPositive : Option ℕ → Type 0
IsPositive none = Unit
IsPositive (some n) = 0 < n

optional_positive_int-ok :
    (o o' : Option ℕ) → optional_positive_int o ≡ ok o' → (o' ≡ o) × IsPositive o'
optional_positive_int-ok none o' h =
    let same : none ≡ o' = ground (arith, h) in rw (← same) (refl, tt)
optional_positive_int-ok (some n) o' h =
    let (m, e, done) = >>=-eq-ok (positive_int n) _ h in
    let (value, pos) = positive_int-ok n m e in
    let same : some m ≡ o' = ground (arith, done) in rw (← same) (rw value refl, pos)

swapped : (a b : ℕ) → a * b ≤ b * a
swapped a b = grind arith

-- The parts before the capacity is checked: every server has a connection, and what the servers
-- hold covers the pool.
abbrev IsDistribution : ℕ → ℕ → ℕ × ℕ × ℕ → Type 0
IsDistribution hosts requested (total, active_servers, per_server) =
    (0 < active_servers)
    × (active_servers ≤ hosts)
    × (active_servers ≤ requested)
    × (total ≤ per_server * active_servers)

distribute-IsDistribution :
    (hosts requested : ℕ) (size per_server : Option ℕ) (parts : ℕ × ℕ × ℕ)
    → 0 < hosts
    → 0 < requested
    → IsPositive size
    → distribute hosts size requested per_server ≡ ok parts
    → IsDistribution hosts requested parts
distribute-IsDistribution hosts requested none per_server parts h r p e =
    let active : ℕ = min requested hosts in
    let same : (active * or_default per_server, active, or_default per_server) ≡ parts =
      ground (arith, e) in
    rw (← same)
      (omega (arith, h, r), omega arith, omega arith, swapped active (or_default per_server))
distribute-IsDistribution hosts requested (some total) per_server parts h r p e =
    let active : ℕ = min (min requested hosts) total in
    let (u, fits, done) = >>=-eq-ok (check_product total active per_server) _ e in
    let same : (total, active, ceiling total active) ≡ parts = ground (arith, done) in
    let pos : 0 < active = omega (arith, h, r, p) in
    rw (← same) (pos, omega arith, omega arith, ceiling_covers total active pos)

with_capacity-ok :
    (limit : Option ℕ) (total active_servers per_server : ℕ) (layout : PoolLayout)
    → with_capacity limit (total, active_servers, per_server) ≡ ok layout
    → (layout.pool_size ≡ total)
      × (layout.server_count ≡ active_servers)
      × (layout.connections_per_server ≡ per_server)
      × (ceiling total active_servers ≤ layout.max_connections_per_host)
with_capacity-ok limit total active_servers per_server layout h =
    let minimum = ceiling total active_servers in
    let (given, e, checked) = >>=-eq-ok (optional_positive_int limit) _ h in
    let (u, large, done) =
      >>=-eq-ok (raise_if (ltb (capacity_or given minimum) minimum) value_error) _ checked in
    let room : minimum ≤ capacity_or given minimum = ground (arith, large) in
    let same : made total active_servers per_server (capacity_or given minimum) ≡ layout =
      ground (arith, done) in
    rw (← same) (refl, refl, refl, room)
  where
    made : ℕ → ℕ → ℕ → ℕ → PoolLayout
    made a b c d = record {
      pool_size = a;
      server_count = b;
      connections_per_server = c;
      max_connections_per_host = d;
    }

-- At least one server, no more than there are hosts and than were asked for, and room for the pool.
abbrev pub Covers : ℕ → ℕ → PoolLayout → Type 0
Covers host_count server_count layout =
    (0 < layout.server_count)
    × (layout.server_count ≤ host_count)
    × (layout.server_count ≤ server_count)
    × (layout.pool_size ≤ layout.connections_per_server * layout.server_count)
    × (layout.pool_size ≤ layout.max_connections_per_host * layout.server_count)

conclude :
    (host_count server_count : ℕ) (limit : Option ℕ) (total active held : ℕ) (layout : PoolLayout)
    → IsDistribution host_count server_count (total, active, held)
    → with_capacity limit (total, active, held) ≡ ok layout
    → Covers host_count server_count layout
conclude host_count server_count limit total active held layout (pos, few, asked, covers) h =
    let (t, a, p, room) = with_capacity-ok limit total active held layout h in
    rw (t, a, p)
      (
        pos,
        few,
        asked,
        covers,
        omega (arith, ceiling_covers total active pos, mul-le-mul_right active room),
      )

-- A layout that was resolved has at least one server, no more than there are hosts and than were
-- asked for, and its connections and the capacity of its hosts both cover the pool.
pub resolve_pool_layout-Covers :
    (host_count : ℕ) (pool_size : Option ℕ) (server_count : ℕ)
    (connections_per_server max_connections_per_host : Option ℕ) (layout : PoolLayout)
    → resolve_pool_layout host_count pool_size server_count connections_per_server
        max_connections_per_host
      ≡ ok layout
    → Covers host_count server_count layout
unfolding resolve_pool_layout
resolve_pool_layout-Covers host_count pool_size server_count per_server limit layout h0 =
    let (hosts, e1, h1) = >>=-eq-ok (positive_int host_count) _ h0 in
    let (requested, e2, h2) = >>=-eq-ok (positive_int server_count) _ h1 in
    let (size, e3, h3) = >>=-eq-ok (optional_positive_int pool_size) _ h2 in
    let (each, e4, h4) = >>=-eq-ok (optional_positive_int per_server) _ h3 in
    let ((total, active, held), e5, h5) = >>=-eq-ok (distribute hosts size requested each) _ h4 in
    let (same_hosts, some_host) = positive_int-ok host_count hosts e1 in
    let (same_requested, some_request) = positive_int-ok server_count requested e2 in
    let (pos, few, asked, covers) =
      distribute-IsDistribution hosts requested size each (total, active, held) some_host
        some_request (optional_positive_int-ok pool_size size e3).1 e5 in
    conclude host_count server_count limit total active held layout
      (pos, omega (arith, few, same_hosts), omega (arith, asked, same_requested), covers) h5
