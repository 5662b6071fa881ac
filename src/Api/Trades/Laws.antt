-- ===== src/Api/Trades/Laws.antt =====
-- What the pages of trade ticks add up to.
use eltdx.Base.{
  ℕ, zero, suc, ◌+◌, ◌-◌, ◌*◌, ◌<◌, ◌≤◌, ◌≡◌, ◌≢◌, refl, ap, sym, ◌∙◌, min, true, false, List, [],
  ◌∷◌, ◌++◌, length, length-take, length-drop, take, drop, take_all, Option, none, some, Result, ok,
  err, length-reverse, take-add, take-length-take, runtime_error, le→leb, lt→leb, ◌==◌, arith,
  Bool-cases, inl, inr,
}
use mathlib.Core.List.{reverse, reverse-append, reverse-reverse}
use eltdx.Api.Trades.{
  Page, join_pages, first_page, merged, is_zero, is_reached, validate_page_size, all_loop,
  all_ticks,
}

-- The server of one code: `start` counts from the newest tick, and a page is in the order of time.
abbrev pub window : {Tick : Type 0} → List Tick → ℕ → ℕ → List Tick
window ticks start n = reverse (take n (drop start (reverse ticks)))

module _ {Info Tick : Type 0} (info : Info) (ticks : List Tick) where
  abbrev pub served : ℕ → ℕ → Page Info Tick
  served start n = record {
    info = info;
    start = start;
    request_count = n;
    ticks = window ticks start n;
  }

  -- All ticks as one page
  abbrev pub whole_page : Page Info Tick
  whole_page = record { info = info; start = 0; request_count = length ticks; ticks = ticks }

module _ {Info Tick : Type 0} (info : Info) (ticks : List Tick)
    (query : ℕ → ℕ → Result (Page Info Tick))
    (serves : (start n : ℕ) → query start n ≡ ok (served info ticks start n)) (page_size : ℕ)
    (max_pages : Option ℕ) where
  -- No more pages than `n` are asked for.
  abbrev pub IsAllowed : Option ℕ → ℕ → Type 0
  IsAllowed none n = Unit
  IsAllowed (some m) n = n ≤ m

  not_reached :
      (limit : Option ℕ) (pages j : ℕ)
      → IsAllowed limit (suc (pages + suc j))
      → is_reached limit (suc pages) ≡ false
  not_reached none pages j h = refl
  not_reached (some m) pages j h = lt→leb m (suc pages) (omega (arith, h))

  abbrev HasInfo : Option (Page Info Tick) → Type 0
  HasInfo none = Unit
  HasInfo (some page) = page.info ≡ info

  count_window :
      (start : ℕ) → length (window ticks start page_size) ≡ min page_size (length ticks - start)
  count_window start = omega (
    arith,
    length-reverse (take page_size (drop start (reverse ticks))),
    length-take page_size (drop start (reverse ticks)),
    length-drop start (reverse ticks),
    length-reverse ticks,
  )

  -- One more page in front of those that are the newest `start` ticks.
  join_step :
      (start : ℕ) (pages_ticks : List (List Tick))
      → join_pages pages_ticks ≡ reverse (take start (reverse ticks))
      → join_pages (window ticks start page_size ∷ pages_ticks)
        ≡ reverse (take (start + length (window ticks start page_size)) (reverse ticks))
  join_step start pages_ticks h =
      rw (h, length-reverse page)
        (sym (reverse-append (take start (reverse ticks)) page)
          ∙ ap reverse (
              ap (λ xs. take start (reverse ticks) ++ xs)
                (sym (take-length-take page_size (drop start (reverse ticks))))
              ∙ sym (take-add start (length page) (reverse ticks))))
    where
      page : List Tick
      page = take page_size (drop start (reverse ticks))

  info_kept :
      (first : Option (Page Info Tick)) (page : Page Info Tick)
      → HasInfo first
      → page.info ≡ info
      → (first_page first page).info ≡ info
  info_kept none page h h' = h'
  info_kept (some first) page h h' = h

  -- The empty page ends the walk with all ticks.
  last_page :
      (start : ℕ) (first : Option (Page Info Tick)) (pages_ticks : List (List Tick))
      → start ≤ length ticks
      → join_pages pages_ticks ≡ reverse (take start (reverse ticks))
      → HasInfo first
      → length ticks ≤ start + length (window ticks start page_size)
      → let joined' = join_pages (window ticks start page_size ∷ pages_ticks) in
        ok (merged (first_page first (served info ticks start page_size)) (length joined') joined')
        ≡ ok (whole_page info ticks)
  last_page start first pages_ticks at joined known all =
      rw (whole, info_kept first (served info ticks start page_size) known refl) refl
    where
      whole : join_pages (window ticks start page_size ∷ pages_ticks) ≡ ticks
      whole =
          join_step start pages_ticks joined
          ∙ (ap reverse (
                take_all (start + length (window ticks start page_size)) (reverse ticks)
                  (omega (arith, length-reverse ticks, all)))
              ∙ reverse-reverse ticks)

  all_loop_complete :
      (fuel start pages j : ℕ) (first : Option (Page Info Tick)) (pages_ticks : List (List Tick))
      → 0 < page_size
      → start ≤ length ticks
      → join_pages pages_ticks ≡ reverse (take start (reverse ticks))
      → HasInfo first
      → length ticks ≤ start + j * page_size
      → IsAllowed max_pages (suc (pages + j))
      → j < fuel
      → all_loop query page_size max_pages fuel start pages first pages_ticks
        ≡ ok (whole_page info ticks)
  unfolding all_loop
  all_loop_complete zero start pages j first pages_ticks pos at joined known left allowed fuel =
      absurd (omega arith)
  all_loop_complete (suc fuel) start pages zero first pages_ticks pos at joined known left allowed
        enough =
      rw (serves start page_size, no_more)
        (last_page start first pages_ticks at joined known (omega (arith, left)))
    where
      no_more : (length (window ticks start page_size) == 0) ≡ true
      no_more = ground (arith, count_window start, left)
  all_loop_complete (suc fuel) start pages (suc j) first pages_ticks pos at joined known left
        allowed enough =
      rw (serves start page_size) (elim (Bool-cases (length (window ticks start page_size) == 0)) [
        | inl empty ↦ rw empty (
            last_page start first pages_ticks at joined known
              (ground (arith, count_window start, empty, at, pos)))
        | inr more ↦
            let more' : length (window ticks start page_size) ≢ 0 = ground (arith, more) in
            rw (more, not_reached max_pages pages j allowed)
              (all_loop_complete fuel (start + length (window ticks start page_size)) (suc pages) j
                _ _ pos (omega (arith, count_window start, at)) (join_step start pages_ticks joined)
                (info_kept first _ known refl)
                (omega (arith, count_window start, at, left, suc_mul j page_size))
                (rw (suc_pages pages j) allowed) (omega (arith, enough)))
      ])
    where
      suc_mul : (n k : ℕ) → suc n * k ≡ k + n * k
      suc_mul n k = grind arith

      suc_pages : (m n : ℕ) → suc m + n ≡ m + suc n
      suc_pages m n = omega arith

  reached_now : (pages : ℕ) → is_reached (some (suc (pages + 0))) (suc pages) ≡ true
  reached_now pages = le→leb (suc (pages + 0)) (suc pages) (omega arith)

  all_loop_too_many :
      (fuel start pages j : ℕ) (first : Option (Page Info Tick)) (pages_ticks : List (List Tick))
      → 0 < page_size
      → start + j * page_size < length ticks
      → max_pages ≡ some (suc (pages + j))
      → j < fuel
      → all_loop query page_size max_pages fuel start pages first pages_ticks ≡ err runtime_error
  unfolding all_loop
  all_loop_too_many zero start pages j first pages_ticks pos more limit enough =
      absurd (omega arith)
  all_loop_too_many (suc fuel) start pages zero first pages_ticks pos more limit enough =
      rw
        (
          serves start page_size,
          some_left,
          ap (λ m. is_reached m (suc pages)) limit,
          reached_now pages,
        )
        refl
    where
      some_left : (length (window ticks start page_size) == 0) ≡ false
      some_left = ground (arith, count_window start, more, pos)
  all_loop_too_many (suc fuel) start pages (suc j) first pages_ticks pos more limit enough =
      rw
        (
          serves start page_size,
          some_left,
          ap (λ m. is_reached m (suc pages)) limit,
          not_reached (some (suc (pages + suc j))) pages j (omega arith),
        )
        (all_loop_too_many fuel (start + length (window ticks start page_size)) (suc pages) j _ _
          pos (omega (arith, count_window start, more, suc_mul j page_size))
          (limit ∙ ap some (omega arith)) (omega (arith, enough)))
    where
      suc_mul : (n k : ℕ) → suc n * k ≡ k + n * k
      suc_mul n k = grind arith

      some_left : (length (window ticks start page_size) == 0) ≡ false
      some_left = ground (arith, count_window start, more, pos, suc_mul j page_size)

  module _ (valid : validate_page_size page_size ≡ ok tt) where
    positive : 0 < page_size
    unfolding validate_page_size
    positive = ground (arith, valid)

    -- With room for one more page than the ticks fill, the pages are put together in the order of
    -- time, and the loop ends within that many requests.
    pub all_ticks_complete :
        (fuel n : ℕ)
        → length ticks ≤ n * page_size
        → IsAllowed max_pages (suc n)
        → n < fuel
        → all_ticks query page_size max_pages fuel ≡ ok (whole_page info ticks)
    unfolding all_ticks
    all_ticks_complete fuel n fits allowed enough =
        rw (valid, limited max_pages allowed)
          (all_loop_complete fuel 0 0 n none [] positive (omega arith) refl tt (omega (arith, fits))
            (rw (zero_add n) allowed) enough)
      where
        zero_add : (n : ℕ) → 0 + n ≡ n
        zero_add n = omega arith

        limited : (limit : Option ℕ) → IsAllowed limit (suc n) → is_zero limit ≡ false
        limited none h = refl
        limited (some m) h = ground (arith, h)

    -- With more ticks than `n` pages hold, a limit of `n + 1` pages ends the walk with an error,
    -- within that many requests.
    pub all_ticks_too_many :
        (fuel n : ℕ)
        → n * page_size < length ticks
        → max_pages ≡ some (suc n)
        → n < fuel
        → all_ticks query page_size max_pages fuel ≡ err runtime_error
    unfolding all_ticks
    all_ticks_too_many fuel n more limit enough =
        rw (valid, ap is_zero limit, nonzero)
          (all_loop_too_many fuel 0 0 n none [] positive (omega (arith, more))
            (limit ∙ ap some (omega arith)) enough)
      where
        nonzero : is_zero (some (suc n)) ≡ false
        nonzero = ground arith
