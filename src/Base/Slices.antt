-- ===== src/Base/Slices.antt =====
-- A list cut in slices of one size: `xs[i:i + size] for i in range(0, len(xs), size)`.
use Prim.Native.Nat.{ℕ, zero, suc, ◌≤◌, ◌<◌}
use mathlib.Core.Path.{◌≡◌, refl, ap, ◌∙◌}
use mathlib.Core.List.{List, [], ◌∷◌, ◌++◌}
use native.Mathlib.Omega.{arith}
use eltdx.Base.Lists.{length, take, drop, All, length-take, length-drop, take-append-drop}

-- In at most `fuel` slices.
abbrev pub slices {ℓ} : {A : Type ℓ} → ℕ → ℕ → List A → List (List A)
slices size zero xs = []
slices size (suc fuel) [] = []
slices size (suc fuel) (x ∷ xs) = take size (x ∷ xs) ∷ slices size fuel (drop size (x ∷ xs))

abbrev pub flatten {ℓ} : {A : Type ℓ} → List (List A) → List A
flatten [] = []
flatten (xs ∷ xss) = xs ++ flatten xss

-- Neither empty nor longer than `size`.
abbrev pub IsSlice {ℓ} : {A : Type ℓ} → ℕ → List A → Type 0
IsSlice size xs = (0 < length xs) × (length xs ≤ size)

module _ {ℓ} {A : Type ℓ} (size : ℕ) (positive : 0 < size) where
  pub flatten-slices :
      (fuel : ℕ) (xs : List A) → length xs ≤ fuel → flatten (slices size fuel xs) ≡ xs
  flatten-slices zero [] h = refl
  flatten-slices zero (x ∷ xs) h = absurd (omega arith)
  flatten-slices (suc fuel) [] h = refl
  flatten-slices (suc fuel) (x ∷ xs) h =
      ap (◌++◌ (take size (x ∷ xs)))
        (flatten-slices fuel (drop size (x ∷ xs)) (omega (arith, length-drop size (x ∷ xs))))
      ∙ take-append-drop size (x ∷ xs)

  pub slices-IsSlice : (fuel : ℕ) (xs : List A) → All (IsSlice size) (slices size fuel xs)
  slices-IsSlice zero xs = tt
  slices-IsSlice (suc fuel) [] = tt
  slices-IsSlice (suc fuel) (x ∷ xs) =
      let l = length-take size (x ∷ xs) in
      ((omega (arith, l), omega (arith, l)), slices-IsSlice fuel (drop size (x ∷ xs)))
