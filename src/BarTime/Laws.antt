-- ===== src/BarTime/Laws.antt =====
-- What aligned bars have in common with the bars they come from.
use eltdx.Base.{
  ℕ, ◌+◌, ◌*◌, ◌/◌, ◌%◌, ◌<◌, ◌≡◌, refl, sym, ap, ap₂, ◌∙◌, Bool, true, false, List, [], ◌∷◌, map,
  Option, none, some, Result, ok, err, ◌>>=◌, All, arith, ltb, if◌then◌else◌, value_error,
  Bool-cases, inl, inr,
}
use eltdx.Protocol.Text.{Text, member, text_eq}
use eltdx.BarTime.{
  TimeOfDay, DateTime, minutes_of, time_after, datetime_after, align_time_bars, align_datetime_bars,
  align_hour_minute_bars, needs_align, check_bar_time, valid_bar_times, bar_time_end,
  bar_time_start, align, is_positive,
}

abbrev pub IsTime : TimeOfDay → Type 0
IsTime t = (t.hour < 24) × (t.minute < 60)

time_after-IsTime : (delta : ℕ) (t : TimeOfDay) → IsTime (time_after delta t)
time_after-IsTime delta t = (omega arith, omega arith)

-- The minutes of both lie on the same clock.
datetime_after-time :
    (delta : ℕ) (d : DateTime) → (datetime_after delta d).time ≡ time_after delta d.time
datetime_after-time delta d =
    let hours : (d.day * 1440 + (d.time.hour * 60 + d.time.minute) + delta) % 1440 / 60
        ≡ (d.time.hour * 60 + d.time.minute + delta) / 60 % 24 =
      omega arith in
    let minutes : (d.day * 1440 + (d.time.hour * 60 + d.time.minute) + delta) % 1440 % 60
        ≡ (d.time.hour * 60 + d.time.minute + delta) % 60 =
      omega arith in
    ap₂ (λ h m. record { hour = h; minute = m }) hours minutes

datetime_after-minutes :
    (delta : ℕ) (d : DateTime)
    → (datetime_after delta d).day * 1440 + minutes_of (datetime_after delta d).time
      ≡ d.day * 1440 + minutes_of d.time + delta
datetime_after-minutes delta d = omega arith

-- The minutes that bars are shifted by.
abbrev pub shift_of : Text → Option ℕ → ℕ
shift_of bar_time none = 0
shift_of bar_time (some delta) = if text_eq bar_time bar_time_start then 0 else delta

-- Whether and how far bars are shifted, in the one way or the other.
data Needed (bar_time : Text) (delta_minutes : Option ℕ) : Result Bool → Type 0 where
  stays :
      member bar_time valid_bar_times ≡ true
      → shift_of bar_time delta_minutes ≡ 0
      → Needed bar_time delta_minutes (ok false)
  shifts :
      (delta : ℕ)
      → member bar_time valid_bar_times ≡ true
      → delta_minutes ≡ some delta
      → shift_of bar_time delta_minutes ≡ delta
      → Needed bar_time delta_minutes (ok true)
  refused :
      member bar_time valid_bar_times ≡ false → Needed bar_time delta_minutes (err value_error)

needs_align-Needed :
    (bar_time : Text) (delta_minutes : Option ℕ)
    → Needed bar_time delta_minutes (needs_align bar_time delta_minutes)
unfolding needs_align check_bar_time
needs_align-Needed bar_time delta_minutes = elim (Bool-cases (text_eq bar_time bar_time_start)) [
  | inl start ↦ rw start (stays (rw start refl) (no_shift delta_minutes start))
  | inr other ↦ elim (Bool-cases (text_eq bar_time bar_time_end)) [
    | inl end ↦ rw other (rw end (at_end delta_minutes other end))
    | inr neither ↦ rw other (rw neither (refused (rw other (rw neither refl))))
  ]
]
  where
    no_shift : (d : Option ℕ) → text_eq bar_time bar_time_start ≡ true → shift_of bar_time d ≡ 0
    no_shift none e = refl
    no_shift (some delta) e = rw e refl

    at_end :
        (d : Option ℕ)
        → text_eq bar_time bar_time_start ≡ false
        → text_eq bar_time bar_time_end ≡ true
        → Needed bar_time d (ok (is_positive d))
    at_end none other end = stays (rw other (rw end refl)) refl
    at_end (some delta) other end = elim (Bool-cases (ltb 0 delta)) [
      | inl positive ↦ rw positive (shifts delta (rw other (rw end refl)) refl (rw other refl))
      | inr zero_delta ↦ rw zero_delta (stays (rw other (rw end refl)) (rw other (ground arith)))
    ]

module _ {Bar : Type 0} (field : Bar → DateTime) (replace : DateTime → Bar → Bar)
    (get-put : (d : DateTime) (bar : Bar) → field (replace d bar) ≡ d) where
  abbrev pub clock_of : Bar → TimeOfDay
  clock_of bar = (field bar).time

  abbrev pub stamp_of : Bar → ℕ
  stamp_of bar = (field bar).day * 1440 + minutes_of (field bar).time

  -- The outcomes of the two alignments of the same bars.
  abbrev pub Agrees : Text → Option ℕ → List Bar → Result (List Bar) → Result (List Bar) → Type 0
  Agrees bar_time delta_minutes bars (ok moved) (ok wrapped) =
      (map clock_of moved ≡ map clock_of wrapped)
      × (map stamp_of moved ≡ map (λ bar. stamp_of bar + shift_of bar_time delta_minutes) bars)
      × (map (λ bar. (field bar).day) wrapped ≡ map (λ bar. (field bar).day) bars)
  Agrees bar_time delta_minutes bars (err e) (err f) =
      (e ≡ value_error) × (f ≡ value_error) × (member bar_time valid_bar_times ≡ false)
  Agrees bar_time delta_minutes bars _ _ = ⊥

  map-same :
      {A : Type 0} (f g : Bar → A) (h : Bar → Bar) (k : Bar → Bar)
      → ((b : Bar) → f (h b) ≡ g (k b))
      → (bars : List Bar) → map f (map h bars) ≡ map g (map k bars)
  map-same f g h k e [] = refl
  map-same f g h k e (b ∷ bars) = ap₂ (λ x xs. x ∷ xs) (e b) (map-same f g h k e bars)

  map-fuse :
      {A : Type 0} (f g : Bar → A) (h : Bar → Bar)
      → ((b : Bar) → f (h b) ≡ g b)
      → (bars : List Bar) → map f (map h bars) ≡ map g bars
  map-fuse f g h e [] = refl
  map-fuse f g h e (b ∷ bars) = ap₂ (λ x xs. x ∷ xs) (e b) (map-fuse f g h e bars)

  map-ext :
      {A : Type 0} (f g : Bar → A)
      → ((b : Bar) → f b ≡ g b)
      → (bars : List Bar) → map f bars ≡ map g bars
  map-ext f g e [] = refl
  map-ext f g e (b ∷ bars) = ap₂ (λ x xs. x ∷ xs) (e b) (map-ext f g e bars)

  abbrev move : ℕ → Bar → Bar
  move delta bar = replace (datetime_after delta (field bar)) bar

  abbrev wrap : ℕ → Bar → Bar
  wrap delta bar =
      replace (record { day = (field bar).day; time = time_after delta ((field bar).time) }) bar

  same_clock : (delta : ℕ) (bar : Bar) → clock_of (move delta bar) ≡ clock_of (wrap delta bar)
  same_clock delta bar =
      ap (λ d. d.time) (get-put (datetime_after delta (field bar)) bar)
      ∙ (datetime_after-time delta (field bar) ∙ sym (ap (λ d. d.time) (get-put _ bar)))

  moved_stamp : (delta : ℕ) (bar : Bar) → stamp_of (move delta bar) ≡ stamp_of bar + delta
  moved_stamp delta bar =
      rw (get-put (datetime_after delta (field bar)) bar) (datetime_after-minutes delta (field bar))

  same_day : (delta : ℕ) (bar : Bar) → (field (wrap delta bar)).day ≡ (field bar).day
  same_day delta bar =
      rw
        (get-put (record { day = (field bar).day; time = time_after delta ((field bar).time) }) bar)
        refl

  aligned :
      (bar_time : Text) (delta_minutes : Option ℕ) (bars : List Bar) (r : Result Bool)
      → Needed bar_time delta_minutes r
      → Agrees bar_time delta_minutes bars
          (r >>= λ needed. ok (align move bars delta_minutes needed))
          (r >>= λ needed. ok (align wrap bars delta_minutes needed))
  aligned bar_time none bars _ (stays valid unshifted) =
      (refl, map-ext _ _ (λ bar. omega arith) bars, refl)
  aligned bar_time (some d) bars _ (stays valid unshifted) =
      (refl, rw unshifted (map-ext _ _ (λ bar. omega arith) bars), refl)
  aligned bar_time delta_minutes bars _ (shifts delta valid given far) = rw given (
    map-same clock_of clock_of (move delta) (wrap delta) (same_clock delta) bars,
    rw (rw given at far) (map-fuse stamp_of _ (move delta) (moved_stamp delta) bars),
    map-fuse _ _ (wrap delta) (same_day delta) bars,
  )
  aligned bar_time delta_minutes bars _ (refused invalid) = (refl, refl, invalid)

  -- With a valid `bar_time`, `align_datetime_bars` moves each bar on by the minutes of the period
  -- (by none for "start", or where there are no such minutes), `align_time_bars` gives the bars the
  -- same times of day and leaves their days; with any other `bar_time` both raise a `ValueError`.
  pub align_datetime_bars-Agrees :
      (bars : List Bar) (delta_minutes : Option ℕ) (bar_time : Text)
      → Agrees bar_time delta_minutes bars
          (align_datetime_bars field replace bars delta_minutes bar_time)
          (align_time_bars field replace bars delta_minutes bar_time)
  unfolding align_datetime_bars align_time_bars
  align_datetime_bars-Agrees bars delta_minutes bar_time =
      aligned bar_time delta_minutes bars _ (needs_align-Needed bar_time delta_minutes)

-- Bars with a valid time keep one.
module _ {Bar : Type 0} (time_of : Bar → TimeOfDay) (replace : TimeOfDay → Bar → Bar)
    (get-put : (t : TimeOfDay) (bar : Bar) → time_of (replace t bar) ≡ t) where
  abbrev pub AllTimes : Result (List Bar) → Type 0
  AllTimes (ok bars) = All (λ bar. IsTime (time_of bar)) bars
  AllTimes (err e) = e ≡ value_error

  shifted-AllTimes :
      (delta : ℕ) (bars : List Bar)
      → All
          (λ bar. IsTime (time_of bar))
          (map (λ bar. replace (time_after delta (time_of bar)) bar) bars)
  shifted-AllTimes delta [] = tt
  shifted-AllTimes delta (bar ∷ bars) = (
    rw (get-put (time_after delta (time_of bar)) bar) (time_after-IsTime delta (time_of bar)),
    shifted-AllTimes delta bars,
  )

  hours-AllTimes :
      (bar_time : Text) (delta_minutes : Option ℕ) (bars : List Bar) (r : Result Bool)
      → All (λ bar. IsTime (time_of bar)) bars
      → Needed bar_time delta_minutes r
      → AllTimes (
          r >>= λ needed. ok (
            align
              (λ delta bar. replace (time_after delta (time_of bar)) bar)
              bars
              delta_minutes
              needed))
  hours-AllTimes bar_time none bars _ times (stays valid unshifted) = times
  hours-AllTimes bar_time (some d) bars _ times (stays valid unshifted) = times
  hours-AllTimes bar_time delta_minutes bars _ times (shifts delta valid given far) =
      rw given (shifted-AllTimes delta bars)
  hours-AllTimes bar_time delta_minutes bars _ times (refused invalid) = refl

  -- `align_hour_minute_bars` gives bars with an hour below 24 and a minute below 60 where it is
  -- given such bars, or raises a `ValueError`.
  pub align_hour_minute_bars-AllTimes :
      (bars : List Bar) (delta_minutes : Option ℕ) (bar_time : Text)
      → All (λ bar. IsTime (time_of bar)) bars
      → AllTimes (align_hour_minute_bars time_of replace bars delta_minutes bar_time)
  unfolding align_hour_minute_bars
  align_hour_minute_bars-AllTimes bars delta_minutes bar_time times =
      hours-AllTimes bar_time delta_minutes bars _ times (needs_align-Needed bar_time delta_minutes)
