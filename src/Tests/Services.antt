-- ===== src/Tests/Services.antt =====
-- Runs of the theorems on trading days and on the pool's layout.
use eltdx.Base.{ℕ, ◌≡◌, refl, List, [], ◌∷◌, none, some, ok, false, arith}
use eltdx.Workday.{days_next, days_previous}
use eltdx.Workday.Laws.{IsAscending, IsNext, IsPrevious, days_next-IsNext, days_previous-IsPrevious}
use eltdx.Pool.Layout.{PoolLayout, resolve_pool_layout}
use eltdx.Pool.Layout.Laws.{Covers, resolve_pool_layout-Covers}

abbrev days : List ℕ
days = 739012 ∷ 739013 ∷ 739016 ∷ []

days-IsAscending : IsAscending days
days-IsAscending = ((omega arith, (omega arith, tt)), ((omega arith, tt), (tt, tt)))

days_next-IsNext_example : IsNext 739014 days (days_next days 739013 false)
days_next-IsNext_example = days_next-IsNext days 739013 false days-IsAscending

days_previous-IsPrevious_example : IsPrevious 739013 days (days_previous days 739013 false)
days_previous-IsPrevious_example = days_previous-IsPrevious days 739013 false days-IsAscending

abbrev layout : PoolLayout
layout = record {
  pool_size = 5;
  server_count = 2;
  connections_per_server = 3;
  max_connections_per_host = 3;
}

layout_resolved : resolve_pool_layout 3 (some 5) 2 none none ≡ ok layout
unfolding resolve_pool_layout
layout_resolved = refl

resolve_pool_layout-Covers_example : Covers 3 2 layout
resolve_pool_layout-Covers_example =
    resolve_pool_layout-Covers 3 (some 5) 2 none none layout layout_resolved
