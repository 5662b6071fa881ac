-- ===== src/Api/Subscription/Codes.antt =====
-- What a subscription that was made holds: its codes and their groups.
use eltdx.Base.{
  ℕ, ◌<◌, ◌≡◌, refl, ap, Bool, ◌||◌, List, [], ◌∷◌, ◌++◌, length, map, Option, Result, ok, err,
  >>=-eq-ok, arith, All, All-append, Bool-cases, inl, inr, if◌then◌else◌, Result-cases,
}
use eltdx.Base.Int.{ℤ}
use eltdx.Base.Slices.{flatten, flatten-slices, slices-IsSlice, IsSlice}
use eltdx.Protocol.Text.{Text, strip, member}
use eltdx.Protocol.Same.{Unique, Unique-snoc}
use eltdx.Protocol.Code.{normalize_code}
use eltdx.Protocol.Code.Shape.{IsFullCode}
use eltdx.Protocol.Code.Laws.{normalize_code-IsFullCode}
use eltdx.Api.Subscription.{
  Subscription, set_default, collect_codes, not_empty, normalize_codes, new_subscription, subscribe,
  group_size, is_negative, is_not_positive, ticks,
}

-- Full codes, none of them twice.
abbrev pub Distinct : List Text → Type 0
Distinct full = Unique full × All IsFullCode full

add_code :
    (seen : List Text) (full : Text)
    → Distinct seen
    → IsFullCode full
    → Distinct (if member full seen then seen else seen ++ full ∷ [])
add_code seen full d is_full = elim (Bool-cases (member full seen)) [
  | inl known ↦ rw known d
  | inr new ↦
      rw new (Unique-snoc seen full d.0 new, All-append _ seen (full ∷ []) d.1 (is_full, tt))
]

set_default-Distinct :
    (seen full : List Text) (text : Text)
    → Distinct seen
    → set_default seen text ≡ ok full
    → Distinct full
unfolding set_default
set_default-Distinct seen full [] d h = let same : seen ≡ full = ground arith in rw (← same) d
set_default-Distinct seen full (c ∷ cs) d h =
    let (code, normalized, added) = >>=-eq-ok (normalize_code (c ∷ cs)) _ h in
    let same : (if member code seen then seen else seen ++ code ∷ []) ≡ full = ground arith in
    rw (← same) (add_code seen code d (normalize_code-IsFullCode (c ∷ cs) code normalized).0)

collect_codes-Distinct :
    (seen given full : List Text)
    → Distinct seen
    → collect_codes seen given ≡ ok full
    → Distinct full
unfolding collect_codes
collect_codes-Distinct seen [] full d h = let same : seen ≡ full = ground arith in rw (← same) d
collect_codes-Distinct seen (code ∷ rest) full d h =
    let (seen', added, collected) = >>=-eq-ok (set_default seen (strip code)) _ h in
    collect_codes-Distinct seen' rest full (set_default-Distinct seen seen' (strip code) d added)
      collected

not_empty-ok :
    (r : Result (List Text)) (full : List Text)
    → not_empty r ≡ ok full
    → (r ≡ ok full) × (0 < length full)
not_empty-ok (ok []) full h = absurd (ground (arith, h))
not_empty-ok (ok (x ∷ xs)) full h =
    let same : x ∷ xs ≡ full = ground arith in (h, rw (← same) (omega arith))
not_empty-ok (err e) full h = absurd (ground (arith, h))

pub normalize_codes-Distinct :
    (given full : List Text) → normalize_codes given ≡ ok full → Distinct full × (0 < length full)
unfolding normalize_codes
normalize_codes-Distinct given full h =
    let (collected, positive) = not_empty-ok (collect_codes [] given) full h in
    (collect_codes-Distinct [] given full (tt, tt) collected, positive)

-- The groups of a subscription are its codes in order, in at most 100 each.
abbrev pub IsGrouped : Subscription → Type 0
IsGrouped s =
    (0 < length s.codes)
    × Distinct s.codes
    × (flatten s.groups ≡ s.codes)
    × All (IsSlice group_size) s.groups
    × (map (λ entry. entry.0) s.cursors ≡ s.codes)

keys-codes :
    (full : List Text) → map (λ (entry : Text × ℕ). entry.0) (map (λ code. (code, 0)) full) ≡ full
keys-codes [] = refl
keys-codes (x ∷ xs) = ap (◌∷◌ x) (keys-codes xs)

new_subscription-IsGrouped :
    (full : List Text) (timeout : Option ℕ) (filter_codes : Bool) (interval : Option ℕ)
    → Distinct full
    → 0 < length full
    → IsGrouped (new_subscription full timeout filter_codes interval)
new_subscription-IsGrouped full timeout filter_codes interval d positive = (
  positive,
  d,
  flatten-slices group_size (omega arith) (length full) full (omega arith),
  slices-IsSlice group_size (omega arith) (length full) full,
  keys-codes full,
)

-- A subscription that is made has at least one code; its codes are full codes without repetition,
-- the keys of its cursors, and its groups, of 1 to 100 codes, are those codes cut in order.
pub subscribe-IsGrouped :
    (given : List Text) (timeout : Option ℤ) (filter_codes : Bool) (interval : Option ℤ)
    (s : Subscription)
    → subscribe given timeout filter_codes interval ≡ ok s
    → IsGrouped s
unfolding subscribe
subscribe-IsGrouped given timeout filter_codes interval s h =
    elim (Bool-cases (is_negative timeout || is_not_positive interval)) [
      | inl bad ↦ absurd (ground (arith, rw bad at h))
      | inr good ↦ elim (Result-cases (normalize_codes given)) [
        | inl (full, is_ok) ↦
            let (d, positive) = normalize_codes-Distinct given full is_ok in
            let same : new_subscription full (ticks timeout) filter_codes (ticks interval) ≡ s =
              ground (arith, rw is_ok at (rw good at h)) in
            rw (← same) (
              new_subscription-IsGrouped full (ticks timeout) filter_codes (ticks interval) d
                positive)
        | inr (e, is_err) ↦ absurd (ground (arith, rw is_err at (rw good at h)))
      ]
    ]
