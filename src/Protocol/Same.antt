-- ===== src/Protocol/Same.antt =====
-- Equality of texts and their membership in a list, as the Boolean tests decide them.
use eltdx.Base.{◌≡◌, refl, true, false, ◌||◌, List, [], ◌∷◌, ◌++◌, arith, ==_refl}
use eltdx.Protocol.Text.{Text, text_eq, member}

pub text_eq→eq : (a b : Text) → text_eq a b ≡ true → a ≡ b
text_eq→eq [] [] h = refl
text_eq→eq [] (b ∷ bs) h = cc
text_eq→eq (a ∷ us) [] h = cc
text_eq→eq (a ∷ us) (b ∷ bs) h = ground (arith, text_eq→eq us bs)

pub text_eq_refl : (a : Text) → text_eq a a ≡ true
text_eq_refl [] = refl
text_eq_refl (a ∷ us) = rw (==_refl a) (text_eq_refl us)

pub text_eq_sym : (a b : Text) → text_eq a b ≡ text_eq b a
text_eq_sym [] [] = refl
text_eq_sym [] (b ∷ bs) = refl
text_eq_sym (a ∷ us) [] = refl
text_eq_sym (a ∷ us) (b ∷ bs) = ground (arith, text_eq_sym us bs)

pub member-append :
    (t : Text) (xs ys : List Text) → member t (xs ++ ys) ≡ (member t xs || member t ys)
member-append t [] ys = refl
member-append t (x ∷ xs) ys = ground (arith, member-append t xs ys)

-- No text stands in the list twice.
abbrev pub Unique : List Text → Type 0
Unique [] = Unit
Unique (x ∷ xs) = (member x xs ≡ false) × Unique xs

pub Unique-snoc :
    (xs : List Text) (y : Text) → Unique xs → member y xs ≡ false → Unique (xs ++ y ∷ [])
Unique-snoc [] y u new = (refl, tt)
Unique-snoc (x ∷ xs) y u new =
    let apart : (text_eq y x ≡ false) × (member y xs ≡ false) = ground arith in
    (
      ground (arith, member-append x xs (y ∷ []), text_eq_sym x y, u.0, apart.0),
      Unique-snoc xs y u.1 apart.1,
    )
