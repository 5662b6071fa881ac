-- ===== src/Mac/Adjust.antt =====
-- The forward adjustment of bars: src/eltdx/mac/adjust.py. Floats are an argument; a date is its
-- ordinal, a datetime a number in the order of time, of which `day_of` gives the date.
pub mod Laws
use eltdx.Base.{
  ℕ, zero, suc, Bool, true, false, not, ◌||◌, ◌&&◌, List, [], ◌∷◌, map, get_elem?, Option, none,
  some, leb, ◌==◌, if◌then◌else◌,
}
use eltdx.Workday.{bisect_left}

-- The floats of Python, as far as the module uses them.
pub record FloatMath (Float : Type 0) : Type 0 where
  pub zero_float : Float
  pub one_float : Float
  pub nan : Float
  pub is_finite : Float → Bool
  pub le : Float → Float → Bool
  pub equal : Float → Float → Bool
  pub plus : Float → Float → Float
  pub minus : Float → Float → Float
  pub times : Float → Float → Float
  pub divide : Float → Float → Float

pub record XdxrEvent (Float : Type 0) : Type 0 where
  pub date : ℕ
  pub category : ℕ
  pub fenhong : Float
  pub peigujia : Float
  pub songzhuangu : Float
  pub peigu : Float

pub record MacBar (Float : Type 0) : Type 0 where
  pub datetime : ℕ
  pub open_price : Float
  pub high : Float
  pub low : Float
  pub close : Float
  pub vol : Float
  pub amount : Float
  pub float_shares : Float

-- `sorted(items, key=key)`, which keeps the order of equal keys
abbrev insert_by : {A : Type 0} → (A → ℕ) → A → List A → List A
insert_by key x [] = x ∷ []
insert_by key x (y ∷ ys) = if leb (key x) (key y) then x ∷ y ∷ ys else y ∷ insert_by key x ys

abbrev pub sorted_by : {A : Type 0} → (A → ℕ) → List A → List A
sorted_by key [] = []
sorted_by key (x ∷ xs) = insert_by key x (sorted_by key xs)

module _ {Float : Type 0} (math : FloatMath Float) where
  unfoldable pub compute_forward_factor : Float → Float → Float → Float → Float → Float
  compute_forward_factor cum_close fenhong peigujia songzhuangu peigu =
      if math.le cum_close math.zero_float
      then math.nan
      else (let denom =
            math.times cum_close (math.plus (math.plus math.one_float songzhuangu) peigu) in
          if math.equal denom math.zero_float
          then math.nan
          else (let factor =
                math.divide (math.plus (math.minus cum_close fenhong) (math.times peigujia peigu))
                  denom in
              if not (math.is_finite factor) then math.nan else factor))

  abbrev is_truthy : Float → Bool
  is_truthy x = not (math.equal x math.zero_float)

  -- The events of category 1 with a number that is not 0.
  abbrev pub is_effective : XdxrEvent Float → Bool
  is_effective event =
      event.category == 1
      && (is_truthy event.fenhong
          || (is_truthy event.peigujia || (is_truthy event.songzhuangu || is_truthy event.peigu)))

  abbrev pub effective : List (XdxrEvent Float) → List (XdxrEvent Float)
  effective [] = []
  effective (event ∷ events) =
      if is_effective event then event ∷ effective events else effective events

  abbrev pub scale_bar : Float → MacBar Float → MacBar Float
  scale_bar factor bar = record {
    datetime = bar.datetime;
    open_price = math.times bar.open_price factor;
    high = math.times bar.high factor;
    low = math.times bar.low factor;
    close = math.times bar.close factor;
    vol = bar.vol;
    amount = bar.amount;
    float_shares = bar.float_shares;
  }

  -- The loop over `range(cum_idx + 1)`.
  abbrev pub scale_first : ℕ → Float → List (MacBar Float) → List (MacBar Float)
  scale_first zero factor bars = bars
  scale_first (suc n) factor [] = []
  scale_first (suc n) factor (bar ∷ bars) = scale_bar factor bar ∷ scale_first n factor bars

  -- The bars after an event, by its factor
  unfoldable pub scale_by : Float → ℕ → List (MacBar Float) → List (MacBar Float)
  scale_by factor idx bars =
      if not (math.is_finite factor) then bars else scale_first idx factor bars

  -- and by the bar before its date, of which there are `idx`.
  unfoldable pub scale_from :
      XdxrEvent Float → ℕ → Option (MacBar Float) → List (MacBar Float) → List (MacBar Float)
  scale_from event idx none bars = bars
  scale_from event idx (some bar) bars =
      scale_by
        (compute_forward_factor bar.close event.fenhong event.peigujia event.songzhuangu
          event.peigu)
        idx bars

  unfoldable pub scale_event : XdxrEvent Float → ℕ → List (MacBar Float) → List (MacBar Float)
  scale_event event zero bars = bars
  scale_event event (suc cum_idx) bars =
      scale_from event (suc cum_idx) (get_elem? bars cum_idx) bars

  -- The loop over the events; `dates` are those of the bars.
  unfoldable pub scale_events :
      List ℕ → List (XdxrEvent Float) → List (MacBar Float) → List (MacBar Float)
  scale_events dates [] bars = bars
  scale_events dates (event ∷ events) bars =
      scale_events dates events (scale_event event (bisect_left dates event.date) bars)

  unfoldable pub apply_forward_adjust :
      (ℕ → ℕ) → List (MacBar Float) → List (XdxrEvent Float) → List (MacBar Float)
  apply_forward_adjust day_of bars xdxr_events =
      let ordered = sorted_by (λ bar. bar.datetime) bars in
      let dates = map (λ bar. day_of bar.datetime) ordered in
      scale_events dates (sorted_by (λ event. event.date) (effective xdxr_events)) ordered

  -- A price that is 0 or less, or not finite.
  abbrev is_bad : Float → Bool
  is_bad value = not (math.is_finite value) || math.le value math.zero_float

  unfoldable pub has_bad_prices : List (MacBar Float) → Bool
  has_bad_prices [] = false
  has_bad_prices (bar ∷ bars) =
      (is_bad bar.open_price || (is_bad bar.high || (is_bad bar.low || is_bad bar.close)))
      || has_bad_prices bars
