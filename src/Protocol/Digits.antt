-- ===== src/Protocol/Digits.antt =====
-- Digits are neither white space nor letters, of the tables in Protocol.Text.
use eltdx.Base.{ℕ, ◌≤◌, ◌≡◌, refl, Bool, true, false, ◌&&◌, ◌||◌, List, [], ◌∷◌, leb, ltb, arith}
use eltdx.Protocol.Text.{in_ranges, wide_digits, wide_spaces, is_digit, is_space, to_lower}

-- No character is in a range and in some other ranges.
apart_from : ℕ → ℕ → List (ℕ × ℕ) → Bool
apart_from first last [] = true
apart_from first last ((first', last') ∷ ranges) =
    (ltb last' first || ltb last first') && apart_from first last ranges

apart : List (ℕ × ℕ) → List (ℕ × ℕ) → Bool
unfolding apart_from
apart [] others = true
apart ((first, last) ∷ ranges) others = apart_from first last others && apart ranges others

outside :
    (first last first' last' c : ℕ)
    → (leb first c && leb c last) ≡ true
    → (ltb last' first || ltb last first') ≡ true
    → (leb first' c && leb c last') ≡ false
outside first last first' last' c within beside = ground arith

both : (a b : Bool) → (a && b) ≡ true → (a ≡ true) × (b ≡ true)
both a b h = ground arith

in_ranges-apart_from :
    (first last c : ℕ) (others : List (ℕ × ℕ))
    → (leb first c && leb c last) ≡ true
    → apart_from first last others ≡ true
    → in_ranges others c ≡ false
unfolding in_ranges apart_from
in_ranges-apart_from first last c [] within beside = refl
in_ranges-apart_from first last c ((first', last') ∷ others) within beside =
    let (here, there) = both _ _ beside in
    rw (outside first last first' last' c within here)
      (in_ranges-apart_from first last c others within there)

either-apart : (a b : Bool) {P : Type 0} → (a || b) ≡ true → (a ≡ true → P) → (b ≡ true → P) → P
either-apart true b h left right = left refl
either-apart false b h left right = right h

in_ranges-apart :
    (ranges others : List (ℕ × ℕ)) (c : ℕ)
    → in_ranges ranges c ≡ true
    → apart ranges others ≡ true
    → in_ranges others c ≡ false
unfolding in_ranges apart
in_ranges-apart [] others c within beside = absurd (ground (arith, within))
in_ranges-apart ((first, last) ∷ ranges) others c within beside =
    let (here, there) = both _ _ beside in
    either-apart (leb first c && leb c last) (in_ranges ranges c) within
      (λ inside. in_ranges-apart_from first last c others inside here)
      (λ behind. in_ranges-apart ranges others c behind there)

left_false : (b : Bool) → (b || false) ≡ false → b ≡ false
left_false b h = ground arith

-- A digit is no white space,
pub is_digit-is_space : (c : ℕ) → is_digit c ≡ true → is_space c ≡ false
unfolding in_ranges apart
is_digit-is_space c digit =
    in_ranges-apart ((48, 57) ∷ wide_digits) ((9, 13) ∷ (28, 32) ∷ wide_spaces) c digit refl

-- and has no case.
pub is_digit-to_lower : (c : ℕ) → is_digit c ≡ true → to_lower c ≡ c
unfolding in_ranges apart
is_digit-to_lower c digit =
    let no_letter : in_ranges ((65, 90) ∷ []) c ≡ false =
      in_ranges-apart ((48, 57) ∷ wide_digits) ((65, 90) ∷ []) c digit refl in
    rw (left_false _ no_letter) refl

-- The white space outside ASCII is outside ASCII.
pub ascii-wide_spaces : (c : ℕ) → c ≤ 127 → in_ranges wide_spaces c ≡ false
unfolding apart_from
ascii-wide_spaces c small = in_ranges-apart_from 0 127 c wide_spaces (ground arith) refl
