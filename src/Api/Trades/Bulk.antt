-- ===== src/Api/Trades/Bulk.antt =====
-- The bulk reader of trades, `all_today_batch` and `all_history_batch`, against `_all`.
use eltdx.Base.{
  ℕ, zero, suc, ◌+◌, ◌≡◌, refl, ap, true, List, [], ◌∷◌, length, length-append, Option, none, some,
  Result, ok, err, bind-cong, runtime_error, ◌==◌, if◌then◌else◌, arith, Bool-cases, inl, inr,
}
use eltdx.Api.Trades.{
  Page, count, join_pages, first_page, merged, is_reached, all_loop, all_ticks, batch_loop,
  all_batch,
}

module _ {Info Tick : Type 0} (query : ℕ → ℕ → Result (Page Info Tick)) (page_size : ℕ)
    (max_pages : Option ℕ) where
  batch_loop-all_loop :
      (fuel start pages : ℕ) (first : Option (Page Info Tick)) (pages_ticks : List (List Tick))
      → start ≡ length (join_pages pages_ticks)
      → batch_loop query page_size max_pages fuel start pages first pages_ticks
        ≡ all_loop query page_size max_pages fuel start pages first pages_ticks
  unfolding batch_loop all_loop
  batch_loop-all_loop zero start pages first pages_ticks h = refl
  batch_loop-all_loop (suc fuel) start pages first pages_ticks h =
      bind-cong (query start page_size) (λ page. elim (Bool-cases (count page == 0)) [
        | inl empty ↦
            let same : start ≡ length (join_pages (page.ticks ∷ pages_ticks)) =
              omega (
                arith,
                h,
                length-append page.ticks (join_pages pages_ticks),
                none_left page empty,
              ) in
            rw empty (
              ap
                (λ n. ok (merged (first_page first page) n (join_pages (page.ticks ∷ pages_ticks))))
                same)
        | inr more ↦ rw more (
            ap (λ next. if is_reached max_pages (suc pages) then err runtime_error else next)
              (batch_loop-all_loop fuel (start + count page) (suc pages)
                (some (first_page first page)) (page.ticks ∷ pages_ticks)
                (omega (arith, h, length-append page.ticks (join_pages pages_ticks)))))
      ])
    where
      none_left : (page : Page Info Tick) → (count page == 0) ≡ true → length page.ticks ≡ 0
      none_left page h = ground (arith, h)

  -- The bulk reader returns what the reader of ticks returns, of any server.
  pub all_batch-all_ticks :
      (fuel : ℕ)
      → all_batch query page_size max_pages fuel ≡ all_ticks query page_size max_pages fuel
  unfolding all_batch all_ticks
  all_batch-all_ticks fuel = rw (batch_loop-all_loop fuel 0 0 none [] refl) refl
