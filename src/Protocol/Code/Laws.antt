-- ===== src/Protocol/Code/Laws.antt =====
-- What `normalize_code` and `split_code` promise of their results.
use eltdx.Base.{
  ℕ, ◌≡◌, refl, Bool, true, false, not, ◌||◌, ◌&&◌, [], ◌∷◌, ◌++◌, take, drop, length, ◌==◌, arith,
  if◌then◌else◌, Result, ok, err, protocol_error, ◌↔◌, Bool-cases, ==_iff, inl, inr,
}
use eltdx.Protocol.Text.{
  codes, starts_with, starts_with_any, member, Text, is_ascii_digit, is_digits, lower, strip,
}
use eltdx.Protocol.Code.{
  sz, sh, bj, sh_prefixes, sh_bond_prefixes, sz_prefixes, bj_prefixes, is_market, infer_market,
  normalize_text, normalize_code,
}
use eltdx.Protocol.Code.Shape.{IsFullCode, normalize_code_full}

-- The text stands behind a market, or the error is a `ProtocolError`.
data Prefixes (text : Text) : Result Text → Type 0 where
  behind :
      (market : Text)
      → is_market market ≡ true
      → length market ≡ 2
      → Prefixes text (ok (market ++ text))
  refused : Prefixes text (err protocol_error)

if-Prefixes :
    (text : Text) (b : Bool) (r s : Result Text)
    → Prefixes text r
    → Prefixes text s
    → Prefixes text (if b then r else s)
if-Prefixes text true r s hr hs = hr
if-Prefixes text false r s hr hs = hs

infer_market-Prefixes : (text : Text) → Prefixes text (infer_market text)
unfolding infer_market
infer_market-Prefixes text =
    if-Prefixes text (starts_with (codes "92") text) _ _ (behind bj refl refl) (
      if-Prefixes text (starts_with_any sh_prefixes text) _ _ (behind sh refl refl) (
        if-Prefixes text (member (take 3 text) sh_bond_prefixes) _ _ (behind sh refl refl) (
          if-Prefixes text (starts_with_any sz_prefixes text) _ _ (behind sz refl refl) (
            if-Prefixes text (starts_with_any bj_prefixes text) _ _ (behind bj refl refl)
              refused))))

prefixed-IsFullCode :
    (market text : Text)
    → is_market market ≡ true
    → length market ≡ 2
    → length text ≡ 6
    → is_digits text ≡ true
    → IsFullCode (market ++ text)
prefixed-IsFullCode [] text m l six digits = absurd (omega arith)
prefixed-IsFullCode (a ∷ []) text m l six digits = absurd (omega arith)
prefixed-IsFullCode (a ∷ b ∷ []) text m l six digits = (omega arith, m, digits)
prefixed-IsFullCode (a ∷ b ∷ c ∷ r) text m l six digits = absurd (omega arith)

Prefixes-IsFullCode :
    (text full : Text) {r : Result Text}
    → Prefixes text r
    → length text ≡ 6
    → is_digits text ≡ true
    → r ≡ ok full
    → IsFullCode full
Prefixes-IsFullCode text full (behind market m l) six digits h =
    let same : full ≡ market ++ text = cc in
    rw same (prefixed-IsFullCode market text m l six digits)
Prefixes-IsFullCode text full refused six digits h = cc

bare_code : (a b : Bool) → (not a || not b) ≡ false → (a ≡ true) × (b ≡ true)
bare_code a b h = ground arith

whole_code : (a b c : Bool) → (a && b && c) ≡ true → (a ≡ true) × (b ≡ true) × (c ≡ true)
whole_code a b c h = ground arith

normalize_text-IsFullCode : (text full : Text) → normalize_text text ≡ ok full → IsFullCode full
unfolding normalize_text
normalize_text-IsFullCode text full h =
    elim (Bool-cases (length text == 8 && is_market (take 2 text) && is_digits (drop 2 text))) [
      | inl whole ↦
          let (l, m, d) = whole_code _ _ _ whole in
          let same : text ≡ full = ground (arith, rw whole at h) in
          rw (← same) ((==_iff _ 8).0 l, m, d)
      | inr not_whole ↦ elim (Bool-cases (not (length text == 6) || not (is_digits text))) [
        | inl bad ↦ absurd (err-ne-ok (rw (not_whole, bad) at h))
        | inr good ↦
            let (l, d) = bare_code _ _ good in
            Prefixes-IsFullCode text full (infer_market-Prefixes text) ((==_iff _ 6).0 l) d
              (rw (not_whole, good) at h)
      ]
    ]
  where
    err-ne-ok : ◌≡◌ {A = Result Text} (err protocol_error) (ok full) → ⊥
    err-ne-ok e = cc

-- Every code that `normalize_code` returns is a market and six digits, in the sense of
-- `str.isdigit`, and the function gives that code back unchanged when it is called on it again.
pub normalize_code-IsFullCode :
    (code full : Text)
    → normalize_code code ≡ ok full
    → IsFullCode full × (normalize_code full ≡ ok full)
normalize_code-IsFullCode code full h =
    let shape = normalize_text-IsFullCode (lower (strip code)) full (unfold normalize_code in h) in
    (shape, normalize_code_full full shape)

-- Six digits of which the first is one of ASCII are refused exactly when it is 7.
pub infer_market_refused :
    (c : ℕ) (cs : Text)
    → is_ascii_digit c ≡ true
    → (infer_market (c ∷ cs) ≡ err protocol_error) ↔ (c ≡ b'7')
unfolding infer_market
infer_market_refused c cs d = (ground arith, λ e. rw e)
