-- ===== src/Protocol/Code/Shape.antt =====
-- The shape of a full security code, and the text operations of `normalize_code` on it.
use eltdx.Base.{ℕ, ◌≤◌, ◌≡◌, refl, ap₂, true, false, [], ◌∷◌, take, drop, length, All, arith, ok}
use eltdx.Protocol.Text.{
  Text, all_digits, is_digit, is_digits, is_space, to_lower, rstrip, lower, strip, drop_last_space,
}
use eltdx.Protocol.Digits.{is_digit-is_space, is_digit-to_lower, ascii-wide_spaces}
use eltdx.Protocol.Code.{is_market, normalize_text, normalize_code}

-- `<market><six digits>`
abbrev pub IsFullCode : Text → Type 0
IsFullCode text =
    (length text ≡ 8) × (is_market (take 2 text) ≡ true) × (is_digits (drop 2 text) ≡ true)

-- Neither white space nor an upper-case letter.
abbrev pub IsPlain : ℕ → Type 0
IsPlain c = (is_space c ≡ false) × (to_lower c ≡ c)

pub lower_plain : (text : Text) → All IsPlain text → lower text ≡ text
lower_plain [] h = refl
lower_plain (c ∷ cs) h = ap₂ ◌∷◌ h.0.1 (lower_plain cs h.1)

drop_last_space_plain : (c : ℕ) (cs : Text) → is_space c ≡ false → drop_last_space c cs ≡ c ∷ cs
drop_last_space_plain c [] h = rw h
drop_last_space_plain c (d ∷ ds) h = refl

rstrip_plain : (text : Text) → All IsPlain text → rstrip text ≡ text
rstrip_plain [] h = refl
rstrip_plain (c ∷ cs) h = rw (rstrip_plain cs h.1) (drop_last_space_plain c cs h.0.0)

pub strip_plain : (text : Text) → All IsPlain text → strip text ≡ text
strip_plain [] h = refl
strip_plain (c ∷ cs) h = rw h.0.0 (rstrip_plain (c ∷ cs) h)

all_digits-IsPlain : (text : Text) → all_digits text ≡ true → All IsPlain text
all_digits-IsPlain [] h = tt
all_digits-IsPlain (c ∷ cs) h =
    let digit : is_digit c ≡ true = ground arith in
    ((is_digit-is_space c digit, is_digit-to_lower c digit), all_digits-IsPlain cs (ground arith))

pub is_digits-IsPlain : (text : Text) → is_digits text ≡ true → All IsPlain text
is_digits-IsPlain [] h = tt
is_digits-IsPlain (c ∷ cs) h = all_digits-IsPlain (c ∷ cs) h

is_market-small : (a b : ℕ) → is_market (a ∷ b ∷ []) ≡ true → (a ≤ 127) × (b ≤ 127)
is_market-small a b h = ground arith

is_market-IsPlain : (a b : ℕ) → is_market (a ∷ b ∷ []) ≡ true → IsPlain a × IsPlain b
is_market-IsPlain a b h =
    let (small, small') = is_market-small a b h in
    ground (arith, ascii-wide_spaces a small, ascii-wide_spaces b small')

pub IsFullCode-IsPlain : (text : Text) → IsFullCode text → All IsPlain text
IsFullCode-IsPlain [] h = tt
IsFullCode-IsPlain (a ∷ []) h = absurd (omega arith)
IsFullCode-IsPlain (a ∷ b ∷ number) h =
    let m = is_market-IsPlain a b h.1 in (m.0, (m.1, is_digits-IsPlain number h.2))

pub normalize_text_full : (text : Text) → IsFullCode text → normalize_text text ≡ ok text
unfolding normalize_text
normalize_text_full text h = ground arith

pub normalize_code_full : (text : Text) → IsFullCode text → normalize_code text ≡ ok text
unfolding normalize_code
normalize_code_full text h =
    let plain = IsFullCode-IsPlain text h in
    rw (strip_plain text plain) (rw (lower_plain text plain) (normalize_text_full text h))
