-- ===== src/Protocol/Code/Split.antt =====
-- `split_code`, and the bare codes that are refused.
use eltdx.Base.{
  ℕ, ◌≡◌, refl, true, false, ◌∷◌, ◌++◌, take, drop, length, ◌==◌, ==_iff, arith, ok, err,
  protocol_error, ◌↔◌, ◌⊎◌, Bool-cases, inl, inr, take-append-drop, length-take, sym,
}
use eltdx.Protocol.Text.{Text, text_eq, is_ascii_digit, is_digits, in_ranges}
use eltdx.Protocol.Same.{text_eq→eq}
use eltdx.Protocol.Code.{
  sz, sh, bj, market_of_id, is_market, infer_market, normalize_text, normalize_code, split_code,
  market_to_id, by_text,
}
use eltdx.Protocol.Code.Shape.{is_digits-IsPlain, lower_plain, strip_plain}
use eltdx.Protocol.Code.Laws.{infer_market_refused, normalize_code-IsFullCode}

is_market-cases : (m : Text) → is_market m ≡ true → (m ≡ sz) ⊎ ((m ≡ sh) ⊎ (m ≡ bj))
is_market-cases m h = elim (Bool-cases (text_eq m sz)) [
  | inl e ↦ inl (text_eq→eq m sz e)
  | inr not_sz ↦ elim (Bool-cases (text_eq m sh)) [
    | inl e ↦ inr (inl (text_eq→eq m sh e))
    | inr not_sh ↦ inr (inr (text_eq→eq m bj (ground arith)))
  ]
]

market_to_id_total :
    (m : Text)
    → is_market m ≡ true
    → (id : ℕ) × (market_to_id (by_text m) ≡ ok id) × (market_of_id id ≡ ok m)
unfolding market_to_id in_ranges
market_to_id_total m h = elim (is_market-cases m h) [
  | inl e ↦ (0, rw e refl, rw e refl)
  | inr (inl e) ↦ (1, rw e refl, rw e refl)
  | inr (inr e) ↦ (2, rw e refl, rw e refl)
]

-- Where `normalize_code` accepts a code, `split_code` accepts it too, and the parts say the same:
-- the market in letters and the number join to the full code, and the market id names that market.
pub split_code_parts :
    (code full : Text)
    → normalize_code code ≡ ok full
    → (id : ℕ) × (market number : Text) × (split_code code ≡ ok (id, market, number))
      × (full ≡ market ++ number)
      × (market_of_id id ≡ ok market)
      × (length market ≡ 2)
      × (is_digits number ≡ true)
unfolding split_code
split_code_parts code full h =
    let shape = (normalize_code-IsFullCode code full h).0 in
    let (id, e, back) = market_to_id_total (take 2 full) shape.1 in
    (
      id,
      take 2 full,
      drop 2 full,
      rw (h, e) refl,
      sym (take-append-drop 2 full),
      back,
      omega (arith, length-take 2 full, shape.0),
      shape.2,
    )

digits_not_full : (text : Text) → length text ≡ 6 → (length text == 8) ≡ false
digits_not_full text h = ground arith

normalize_code_bare :
    (text : Text)
    → length text ≡ 6
    → is_digits text ≡ true
    → normalize_code text ≡ infer_market text
unfolding normalize_code normalize_text
normalize_code_bare text six digits =
    let plain = is_digits-IsPlain text digits in
    rw
      (
        strip_plain text plain,
        lower_plain text plain,
        digits_not_full text six,
        digits,
        (==_iff _ 6).1 six,
      )
      refl

-- A bare code of six digits, of which the first is one of ASCII, is refused exactly when that is 7;
-- every other one gets a market.
pub normalize_code_refused :
    (c : ℕ) (cs : Text)
    → length (c ∷ cs) ≡ 6
    → is_digits (c ∷ cs) ≡ true
    → is_ascii_digit c ≡ true
    → (normalize_code (c ∷ cs) ≡ err protocol_error) ↔ (c ≡ b'7')
normalize_code_refused c cs six digits ascii =
    rw (normalize_code_bare (c ∷ cs) six digits) (infer_market_refused c cs ascii)
