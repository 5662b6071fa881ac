-- ===== src/Pool/Config/Laws.antt =====
-- What a transport that was made is configured with.
use eltdx.Base.{
  ℕ, ◌≤◌, ◌≡◌, refl, Bool, true, false, ◌||◌, Option, none, some, ok, raise_if, >>=-eq-ok,
  value_error, ◌==◌, ltb→le, arith, Bool-cases, inl, inr,
}
use eltdx.Pool.Layout.{
  PoolLayout, optional_positive_int, resolve_pool_layout, slot_raw_max_bytes,
  slot_decoded_max_bytes,
}
use eltdx.Pool.Config.{
  Options, exceeds, falls_below, or_one, check_numbers, check_workers, check_bytes, configure,
}

abbrev pub AtMost : Option ℕ → ℕ → Type 0
AtMost none limit = Unit
AtMost (some value) limit = value ≤ limit

abbrev pub AtLeast : Option ℕ → ℕ → Type 0
AtLeast none limit = Unit
AtLeast (some value) limit = limit ≤ value

-- The limits that are given fit the layout.
record Fits (host_count : ℕ) (o : Options) (layout : PoolLayout) : Type 0 where
  pub workers : AtMost o.runtime_workers layout.pool_size
  pub concurrency : AtMost o.connect_concurrency layout.pool_size
  pub per_host_slots : AtMost o.connect_concurrency_per_host (or_one o.connect_concurrency)
  pub per_host : AtMost o.connect_concurrency_per_host layout.max_connections_per_host
  pub raw : AtLeast o.global_raw_bytes slot_raw_max_bytes
  pub decoded : AtLeast o.global_decoded_bytes slot_decoded_max_bytes

raise_if-ok : (b : Bool) {u : Unit {0}} → raise_if b value_error ≡ ok u → b ≡ false
raise_if-ok true h = absurd (ground (arith, h))
raise_if-ok false h = refl

exceeds-AtMost : (o : Option ℕ) (limit : ℕ) → exceeds o limit ≡ false → AtMost o limit
exceeds-AtMost none limit h = tt
exceeds-AtMost (some value) limit h = ltb→le limit value h

falls_below-AtLeast : (o : Option ℕ) (limit : ℕ) → falls_below o limit ≡ false → AtLeast o limit
falls_below-AtLeast none limit h = tt
falls_below-AtLeast (some value) limit h = ltb→le value limit h

optional_same : (o : Option ℕ) {o' : Option ℕ} → optional_positive_int o ≡ ok o' → o' ≡ o
optional_same none {o'} h = ground arith
optional_same (some n) {o'} h = elim (Bool-cases (n == 0)) [
  | inl is_zero ↦ absurd (ground (arith, rw is_zero at h))
  | inr positive ↦ ground (arith, rw positive at h)
]

check_workers-AtMost :
    (o : Options) (layout : PoolLayout)
    → check_workers o layout ≡ ok tt
    → AtMost o.runtime_workers layout.pool_size
      × AtMost o.connect_concurrency layout.pool_size
      × AtMost o.connect_concurrency_per_host (or_one o.connect_concurrency)
      × AtMost o.connect_concurrency_per_host layout.max_connections_per_host
unfolding check_workers
check_workers-AtMost o layout h =
    let (workers, w, h1) = >>=-eq-ok (optional_positive_int o.runtime_workers) _ h in
    let (_, few, h2) = >>=-eq-ok (raise_if (exceeds workers layout.pool_size) value_error) _ h1 in
    let (concurrency, c, h3) = >>=-eq-ok (optional_positive_int o.connect_concurrency) _ h2 in
    let (_, low, h4) =
      >>=-eq-ok (raise_if (exceeds concurrency layout.pool_size) value_error) _ h3 in
    let (per_host, p, last) =
      >>=-eq-ok (optional_positive_int o.connect_concurrency_per_host) _ h4 in
    let (slots, host) = neither _ _ (raise_if-ok _ last) in
    (
      limited o.runtime_workers workers _ (optional_same _ w) (raise_if-ok _ few),
      limited o.connect_concurrency concurrency _ (optional_same _ c) (raise_if-ok _ low),
      fewer (optional_same _ c)
          (limited o.connect_concurrency_per_host per_host _ (optional_same _ p) slots),
      limited o.connect_concurrency_per_host per_host _ (optional_same _ p) host,
    )
  where
    neither : (a b : Bool) → (a || b) ≡ false → (a ≡ false) × (b ≡ false)
    neither a b e = ground arith

    limited :
        (given read : Option ℕ) (limit : ℕ)
        → read ≡ given
        → exceeds read limit ≡ false
        → AtMost given limit
    limited given read limit same e = rw (← same) (exceeds-AtMost read limit e)

    fewer :
        {concurrency : Option ℕ}
        → concurrency ≡ o.connect_concurrency
        → AtMost o.connect_concurrency_per_host (or_one concurrency)
        → AtMost o.connect_concurrency_per_host (or_one o.connect_concurrency)
    fewer {concurrency} same m = rw same at m

check_bytes-AtLeast :
    (o : Options)
    → check_bytes o ≡ ok tt
    → AtLeast o.global_raw_bytes slot_raw_max_bytes
      × AtLeast o.global_decoded_bytes slot_decoded_max_bytes
unfolding check_bytes
check_bytes-AtLeast o h =
    let (raw, r, h1) = >>=-eq-ok (optional_positive_int o.global_raw_bytes) _ h in
    let (_, enough, h2) =
      >>=-eq-ok (raise_if (falls_below raw slot_raw_max_bytes) value_error) _ h1 in
    let (decoded, d, last) = >>=-eq-ok (optional_positive_int o.global_decoded_bytes) _ h2 in
    (
      large o.global_raw_bytes raw _ (optional_same _ r) (raise_if-ok _ enough),
      large o.global_decoded_bytes decoded _ (optional_same _ d) (raise_if-ok _ last),
    )
  where
    large :
        (given read : Option ℕ) (limit : ℕ)
        → read ≡ given
        → falls_below read limit ≡ false
        → AtLeast given limit
    large given read limit same e = rw (← same) (falls_below-AtLeast read limit e)

-- The layout of a transport that is made is the one that `resolve_pool_layout` gives. Where they are
-- given, its workers and the connections that are made at once are no more than its slots, those at
-- once to one host no more than those at all and than the connections of a host, and its byte budgets
-- hold at least one slot's buffer.
configure-Fits :
    (host_count : ℕ) (o : Options) (layout : PoolLayout)
    → configure host_count o ≡ ok layout
    → (resolve_pool_layout host_count o.pool_size o.server_count o.connections_per_server
          o.max_connections_per_host
        ≡ ok layout)
      × Fits host_count o layout
unfolding configure
configure-Fits host_count o layout h =
    let (_, numbers, h1) = >>=-eq-ok (check_numbers host_count o) _ h in
    let (made, resolved, h2) =
      >>=-eq-ok
        (resolve_pool_layout host_count o.pool_size o.server_count o.connections_per_server
          o.max_connections_per_host)
        _ h1 in
    let (_, workers, h3) = >>=-eq-ok (check_workers o made) _ h2 in
    let (_, bytes, last) = >>=-eq-ok (check_bytes o) _ h3 in
    let same : made ≡ layout = ground arith in
    let limits = check_workers-AtMost o made workers in
    let budgets = check_bytes-AtLeast o bytes in
    rw (← same) (
      resolved,
      record {
        workers = limits.0;
        concurrency = limits.1;
        per_host_slots = limits.2;
        per_host = limits.3;
        raw = budgets.0;
        decoded = budgets.1;
      },
    )
