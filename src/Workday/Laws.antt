-- ===== src/Workday/Laws.antt =====
-- What the searches in the trading days find.
use eltdx.Base.{
  ℕ, suc, ◌+◌, ◌<◌, ◌≤◌, ◌≡◌, ◌⊎◌, refl, Bool, true, false, List, [], ◌∷◌, get_elem?, Option, none,
  some, ltb, leb, ==_refl, ltb→lt, ltb→le, ◌==◌, arith, All, All-weaken, Bool-cases, inl, inr,
}
use eltdx.Workday.{
  is_weekday, find_weekday, bisect_left, bisect_right, insert_day, sorted_days, has_day, days_next,
  days_previous, before_index,
}

-- Strictly ascending days
abbrev pub IsAscending : List ℕ → Type 0
IsAscending [] = Unit
IsAscending (day ∷ days) = All (λ d. day < d) days × IsAscending days

insert_day-All :
    (P : ℕ → Type 0) (x : ℕ) (days : List ℕ) → P x → All P days → All P (insert_day x days)
insert_day-All P x [] hx h = (hx, tt)
insert_day-All P x (day ∷ days) hx h = elim (Bool-cases (ltb x day)) [
  | inl less ↦ rw less (hx, h)
  | inr more ↦ elim (Bool-cases (x == day)) [
    | inl same ↦ rw (more, same) h
    | inr other ↦ rw (more, other) (h.0, insert_day-All P x days hx h.1)
  ]
]

insert_day-IsAscending :
    (x : ℕ) (days : List ℕ) → IsAscending days → IsAscending (insert_day x days)
insert_day-IsAscending x [] h = (tt, tt)
insert_day-IsAscending x (day ∷ days) h = elim (Bool-cases (ltb x day)) [
  | inl less ↦
      let below = ltb→lt x day less in
      rw less ((below, All-weaken _ _ (λ d above. omega (arith, above, below)) days h.0), h)
  | inr more ↦ elim (Bool-cases (x == day)) [
    | inl same ↦ rw (more, same) h
    | inr other ↦
        let above : day < x = ground (arith, more, other) in
        rw (more, other)
          (insert_day-All (λ d. day < d) x days above h.0, insert_day-IsAscending x days h.1)
  ]
]

-- The days of a refresh are in strictly ascending order, whatever the bars are.
pub sorted_days-IsAscending : (bars : List ℕ) → IsAscending (sorted_days bars)
sorted_days-IsAscending [] = tt
sorted_days-IsAscending (day ∷ bars) =
    insert_day-IsAscending day (sorted_days bars) (sorted_days-IsAscending bars)

-- What is the first of the days from `x` on; none, where all days are before it.
abbrev pub IsNext : ℕ → List ℕ → Option ℕ → Type 0
IsNext x days none = All (λ e. e < x) days
IsNext x days (some d) = (x ≤ d) × (has_day days d ≡ true) × All (λ e. (e < x) ⊎ (d ≤ e)) days

-- What is the last of the days before `x`; none, where no day is before it.
abbrev pub IsPrevious : ℕ → List ℕ → Option ℕ → Type 0
IsPrevious x days none = All (λ e. x ≤ e) days
IsPrevious x days (some d) = (d < x) × (has_day days d ≡ true) × All (λ e. (e ≤ d) ⊎ (x ≤ e)) days

has_first : (day : ℕ) (days : List ℕ) → has_day (day ∷ days) day ≡ true
has_first day days = rw (==_refl day) refl

has_later : (day d : ℕ) (days : List ℕ) → has_day days d ≡ true → has_day (day ∷ days) d ≡ true
has_later day d days h = elim (Bool-cases (day == d)) [
  | inl same ↦ rw same refl
  | inr other ↦ rw (other, h) refl
]

IsNext-cons :
    (x day : ℕ) (days : List ℕ) (o : Option ℕ) → day < x → IsNext x days o → IsNext x (day ∷ days) o
IsNext-cons x day days none below h = (below, h)
IsNext-cons x day days (some d) below h = (h.0, has_later day d days h.1, (inl below, h.2))

bisect_left-IsNext :
    (x : ℕ) (days : List ℕ) → IsAscending days → IsNext x days (get_elem? days (bisect_left days x))
bisect_left-IsNext x [] h = tt
bisect_left-IsNext x (day ∷ days) h = elim (Bool-cases (ltb day x)) [
  | inl before ↦
      rw before (IsNext-cons x day days _ (ltb→lt day x before) (bisect_left-IsNext x days h.1))
  | inr from ↦ rw from (
    ltb→le day x from,
    has_first day days,
    (inr (omega arith), All-weaken _ _ (λ e above. inr (omega (arith, above))) days h.0),
  )
]

bisect_right-suc : (x : ℕ) (days : List ℕ) → bisect_right days x ≡ bisect_left days (suc x)
bisect_right-suc x [] = refl
bisect_right-suc x (day ∷ days) =
    let same : leb day x ≡ ltb day (suc x) = ground arith in rw (same, bisect_right-suc x days) refl

-- The first day that the search with `include_self` may return.
abbrev pub from_day : ℕ → Bool → ℕ
from_day day true = day
from_day day false = suc day

-- The next trading day is the first of the known days from the given one on, or behind it.
pub days_next-IsNext :
    (days : List ℕ) (day : ℕ) (include_self : Bool)
    → IsAscending days
    → IsNext (from_day day include_self) days (days_next days day include_self)
unfolding days_next
days_next-IsNext days day true h = bisect_left-IsNext day days h
days_next-IsNext days day false h =
    rw (bisect_right-suc day days) (bisect_left-IsNext (suc day) days h)

IsPrevious-cons :
    (x day day' : ℕ) (days : List ℕ) (o : Option ℕ)
    → day < day'
    → day' < x
    → IsPrevious x (day' ∷ days) o
    → IsPrevious x (day ∷ day' ∷ days) o
IsPrevious-cons x day day' days none less below h = absurd (omega (arith, h.0, below))
IsPrevious-cons x day day' days (some d) less below h = (
  h.0,
  has_later day d (day' ∷ days) h.1,
  (elim h.2.0 [ inl at ↦ inl (omega (arith, at, less)) | inr above ↦ absurd (omega arith) ], h.2),
)

bisect_left-IsPrevious :
    (x : ℕ) (days : List ℕ)
    → IsAscending days
    → IsPrevious x days (before_index days (bisect_left days x))
bisect_left-IsPrevious x [] h = tt
bisect_left-IsPrevious x (day ∷ []) h = elim (Bool-cases (ltb day x)) [
  | inl before ↦ rw before (ltb→lt day x before, has_first day [], (inl (omega arith), tt))
  | inr from ↦ rw from (ltb→le day x from, tt)
]
bisect_left-IsPrevious x (day ∷ day' ∷ days) h =
    let ih = bisect_left-IsPrevious x (day' ∷ days) h.1 in
    elim (Bool-cases (ltb day x)) [
      | inl before ↦ elim (Bool-cases (ltb day' x)) [
        | inl more ↦
            rw (before, more)
              (IsPrevious-cons x day day' days _ h.0.0 (ltb→lt day' x more) (behind more ih))
        | inr last ↦
            let above = ltb→le day' x last in
            rw (before, last)
              (
                ltb→lt day x before,
                has_first day (day' ∷ days),
                (
                  inl (omega arith),
                  (
                    inr above,
                    All-weaken _ _ (λ e later. inr (omega (arith, later, above))) days h.1.0,
                  ),
                ),
              )
      ]
      | inr from ↦
          let above = ltb→le day x from in
          rw from (above, All-weaken _ _ (λ e later. omega (arith, later, above)) (day' ∷ days) h.0)
    ]
  where
    behind :
        ltb day' x ≡ true
        → IsPrevious x (day' ∷ days) (before_index (day' ∷ days) (bisect_left (day' ∷ days) x))
        → IsPrevious x (day' ∷ days) (get_elem? (day' ∷ days) (bisect_left days x))
    behind more p =
        let shift : before_index (day' ∷ days) (bisect_left (day' ∷ days) x)
            ≡ get_elem? (day' ∷ days) (bisect_left days x) =
          rw more refl in
        rw (← shift) p

-- The day that the search with `include_self` stays below
abbrev pub below_day : ℕ → Bool → ℕ
below_day day true = suc day
below_day day false = day

-- The previous trading day is the last of the known days up to the given one, or before it.
pub days_previous-IsPrevious :
    (days : List ℕ) (day : ℕ) (include_self : Bool)
    → IsAscending days
    → IsPrevious (below_day day include_self) days (days_previous days day include_self)
unfolding days_previous
days_previous-IsPrevious days day true h =
    rw (bisect_right-suc day days) (bisect_left-IsPrevious (suc day) days h)
days_previous-IsPrevious days day false h = bisect_left-IsPrevious day days h

-- With no client the search ends at a weekday within two days: the loop of `next_workday` is over
-- after three rounds.
pub find_weekday-within :
    (day : ℕ)
    → (d : ℕ) × (find_weekday 7 day ≡ some d) × (is_weekday d ≡ true) × (day ≤ d) × (d ≤ day + 2)
find_weekday-within day = elim (Bool-cases (is_weekday day)) [
  | inl now ↦ (day, rw now refl, now, omega arith, omega arith)
  | inr saturday ↦ elim (Bool-cases (is_weekday (suc day))) [
    | inl monday ↦ (suc day, rw (saturday, monday) refl, monday, omega arith, omega arith)
    | inr sunday ↦
        let monday : is_weekday (suc (suc day)) ≡ true = ground (arith, saturday, sunday) in
        (suc (suc day), rw (saturday, sunday, monday) refl, monday, omega arith, omega arith)
  ]
]
