-- ===== src/Mac/Adjust/Laws.antt =====
-- What an adjustment leaves as it is: `apply_forward_adjust` of src/eltdx/mac/adjust.py.
use eltdx.Base.{
  ℕ, zero, suc, ◌≤◌, ◌≡◌, refl, ◌∙◌, Bool, true, false, List, [], ◌∷◌, map, drop, get_elem?, Option,
  none, some, if◌then◌else◌, leb, All, All-weaken, Bool-cases, inl, inr, arith,
}
use eltdx.Workday.{bisect_left}
use eltdx.Mac.Adjust.{
  FloatMath, XdxrEvent, MacBar, insert_by, sorted_by, effective, is_effective, scale_first,
  scale_event, scale_events, scale_by, scale_from, apply_forward_adjust,
}

bisect_left_mono : (days : List ℕ) (x y : ℕ) → x ≤ y → bisect_left days x ≤ bisect_left days y
bisect_left_mono [] x y le = omega arith
bisect_left_mono (day ∷ days) x y le = let rest = bisect_left_mono days x y le in ground arith

if-All :
    {A : Type 0} (P : A → Type 0) (b : Bool) (xs ys : List A)
    → All P xs
    → All P ys
    → All P (if b then xs else ys)
if-All P true xs ys left right = left
if-All P false xs ys left right = right

insert_by-All :
    {A : Type 0} (P : A → Type 0) (key : A → ℕ) (x : A) (xs : List A)
    → P x
    → All P xs
    → All P (insert_by key x xs)
insert_by-All P key x [] px all = (px, tt)
insert_by-All P key x (y ∷ ys) px (py, all) =
    if-All P (leb (key x) (key y)) _ _ (px, (py, all)) (py, insert_by-All P key x ys px all)

sorted_by-All :
    {A : Type 0} (P : A → Type 0) (key : A → ℕ) (xs : List A) → All P xs → All P (sorted_by key xs)
sorted_by-All P key [] all = tt
sorted_by-All P key (x ∷ xs) (px, all) =
    insert_by-All P key x (sorted_by key xs) px (sorted_by-All P key xs all)

module _ {Float : Type 0} (math : FloatMath Float) where
  effective-All :
      (P : XdxrEvent Float → Type 0) (events : List (XdxrEvent Float))
      → All P events
      → All P (effective math events)
  effective-All P [] all = tt
  effective-All P (event ∷ events) (p, all) =
      let rest = effective-All P events all in if-All P (is_effective math event) _ _ (p, rest) rest

  drop-scale_first :
      (n m : ℕ) (factor : Float) (bars : List (MacBar Float))
      → m ≤ n
      → drop n (scale_first math m factor bars) ≡ drop n bars
  drop-scale_first n zero factor bars le = refl
  drop-scale_first (suc n) (suc m) factor [] le = refl
  drop-scale_first (suc n) (suc m) factor (bar ∷ bars) le =
      drop-scale_first n m factor bars (omega arith)
  drop-scale_first zero (suc m) factor bars le = absurd (omega arith)

  drop-scale_by :
      (n m : ℕ) (factor : Float) (bars : List (MacBar Float))
      → m ≤ n
      → drop n (scale_by math factor m bars) ≡ drop n bars
  unfolding scale_by
  drop-scale_by n m factor bars le = elim (Bool-cases (math.is_finite factor)) [
    | inl finite ↦ rw finite (drop-scale_first n m factor bars le)
    | inr infinite ↦ rw infinite refl
  ]

  drop-scale_from :
      (n m : ℕ) (event : XdxrEvent Float) (last : Option (MacBar Float))
      (bars : List (MacBar Float))
      → m ≤ n
      → drop n (scale_from math event m last bars) ≡ drop n bars
  unfolding scale_from
  drop-scale_from n m event none bars le = refl
  drop-scale_from n m event (some bar) bars le = drop-scale_by n m _ bars le

  drop-scale_event :
      (n m : ℕ) (event : XdxrEvent Float) (bars : List (MacBar Float))
      → m ≤ n
      → drop n (scale_event math event m bars) ≡ drop n bars
  unfolding scale_event
  drop-scale_event n zero event bars le = refl
  drop-scale_event n (suc m) event bars le =
      drop-scale_from n (suc m) event (get_elem? bars m) bars le

  drop-scale_events :
      (n : ℕ) (dates : List ℕ) (events : List (XdxrEvent Float)) (bars : List (MacBar Float))
      → All (λ event. bisect_left dates event.date ≤ n) events
      → drop n (scale_events math dates events bars) ≡ drop n bars
  unfolding scale_events
  drop-scale_events n dates [] bars all = refl
  drop-scale_events n dates (event ∷ events) bars (le, all) =
      drop-scale_events n dates events _ all
      ∙ drop-scale_event n (bisect_left dates event.date) event bars le

  -- Where no event has a later date than a day, the adjusted bars from that day on are those that
  -- the bars, put in the order of their time, had from that day on.
  pub apply_forward_adjust_anchor :
      (day_of : ℕ → ℕ) (bars : List (MacBar Float)) (events : List (XdxrEvent Float)) (day : ℕ)
      → All (λ event. event.date ≤ day) events
      → let ordered = sorted_by (λ bar. bar.datetime) bars in
        let n = bisect_left (map (λ bar. day_of bar.datetime) ordered) day in
        drop n (apply_forward_adjust math day_of bars events) ≡ drop n ordered
  unfolding apply_forward_adjust
  apply_forward_adjust_anchor day_of bars events day all =
      let ordered = sorted_by (λ (bar : MacBar Float). bar.datetime) bars in
      let dates = map (λ (bar : MacBar Float). day_of bar.datetime) ordered in
      drop-scale_events (bisect_left dates day) dates _ ordered (
        sorted_by-All _ (λ event. event.date) _
          (effective-All _ events
            (All-weaken _ _ (λ event le. bisect_left_mono dates event.date day le) events all)))
