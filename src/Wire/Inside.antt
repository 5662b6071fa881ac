-- ===== src/Wire/Inside.antt =====
-- A slice inside one part of a longer body.
use eltdx.Base.{
  ℕ, zero, suc, ◌+◌, ◌≤◌, ◌≡◌, refl, sym, ap, ◌∙◌, [], ◌∷◌, ◌++◌, take, drop, length, drop-add,
  drop-append, length-drop, arith,
}
use eltdx.Wire.Le.{Bytes, slice}

take-within : (n : ℕ) (r rest : Bytes) → n ≤ length r → take n (r ++ rest) ≡ take n r
take-within zero r rest h = refl
take-within (suc n) [] rest h = absurd (omega arith)
take-within (suc n) (b ∷ r) rest h = ap (◌∷◌ b) (take-within n r rest (omega arith))

drop-within : (n : ℕ) (r rest : Bytes) → n ≤ length r → drop n (r ++ rest) ≡ drop n r ++ rest
drop-within zero r rest h = refl
drop-within (suc n) [] rest h = absurd (omega arith)
drop-within (suc n) (b ∷ r) rest h = drop-within n r rest (omega arith)

pub slice-within :
    (before r rest : Bytes) (start size : ℕ)
    → start + size ≤ length r
    → slice (length before + start) size (before ++ (r ++ rest)) ≡ slice start size r
slice-within before r rest start size h =
    let there : drop (length before + start) (before ++ (r ++ rest)) ≡ drop start r ++ rest =
      sym (drop-add (length before) start (before ++ (r ++ rest)))
      ∙ (ap (drop start) (drop-append (length before) before (r ++ rest) refl)
          ∙ drop-within start r rest (omega arith)) in
    ap (take size) there ∙ take-within size (drop start r) rest (omega (arith, length-drop start r))
