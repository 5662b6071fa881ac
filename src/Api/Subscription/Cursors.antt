-- ===== src/Api/Subscription/Cursors.antt =====
-- The cursors of a subscription follow the records that come in.
use eltdx.Base.{
  ℕ, ◌≡◌, refl, ◌∙◌, true, false, List, [], ◌∷◌, map, arith, if◌then◌else◌, Bool-cases, inl, inr,
}
use eltdx.Protocol.Text.{Text, text_eq, member}
use eltdx.Protocol.Same.{text_eq→eq, text_eq_sym}
use eltdx.Api.Subscription.{Record, refresh_record, other_record, set_cursor, remember, cursor}

abbrev pub keys : List (Text × ℕ) → List Text
keys = map (λ entry. entry.0)

-- The time of the last record of a code, or the time before.
abbrev pub latest : Text → List Record → ℕ → ℕ
latest code [] time = time
latest code (refresh_record other new ∷ records) time =
    latest code records (if text_eq code other then new else time)
latest code (other_record ∷ records) time = latest code records time

keys-set_cursor :
    (code : Text) (value : ℕ) (cs : List (Text × ℕ)) → keys (set_cursor code value cs) ≡ keys cs
keys-set_cursor code value [] = refl
keys-set_cursor code value ((key, old) ∷ rest) = elim (Bool-cases (text_eq code key)) [
  | inl e ↦ rw e refl
  | inr e ↦ rw e (rw (keys-set_cursor code value rest) refl)
]

same_text : (a b c : Text) → text_eq a b ≡ true → text_eq a c ≡ text_eq b c
same_text a b c h = rw (text_eq→eq a b h) refl

-- What is read for a key behind an assignment to another or the same key.
cursor-set_cursor :
    (code other : Text) (value : ℕ) (cs : List (Text × ℕ))
    → member code (keys cs) ≡ true
    → cursor (set_cursor other value cs) code
      ≡ (if text_eq code other then value else cursor cs code)
cursor-set_cursor code other value [] h = cc
cursor-set_cursor code other value ((key, old) ∷ rest) h = elim (Bool-cases (text_eq other key)) [
  | inl same ↦
      let alike : text_eq code other ≡ text_eq code key = rw (text_eq→eq other key same) refl in
      elim (Bool-cases (text_eq code key)) [
        | inl found ↦ rw same (rw alike (rw found refl))
        | inr passed ↦ rw same (rw alike (rw passed refl))
      ]
  | inr differs ↦ elim (Bool-cases (text_eq code key)) [
    | inl found ↦
        let apart : text_eq code other ≡ false =
          same_text code key other found ∙ (text_eq_sym key other ∙ differs) in
        rw differs (rw apart (rw found refl))
    | inr passed ↦
        rw differs
          (rw passed (cursor-set_cursor code other value rest (ground (arith, rw passed at h))))
  ]
]

-- For each code of the subscription, `_remember` leaves the update time of the last record of that
-- code, also where it is lower than the one before, and the cursor as it was where there is none.
pub cursor-remember :
    (records : List Record) (cs : List (Text × ℕ)) (code : Text)
    → member code (keys cs) ≡ true
    → cursor (remember records cs) code ≡ latest code records (cursor cs code)
cursor-remember [] cs code h = refl
cursor-remember (other_record ∷ records) cs code h = cursor-remember records cs code h
cursor-remember (refresh_record other time ∷ records) cs code h =
    cursor-remember records (set_cursor other time cs) code (rw (keys-set_cursor other time cs) h)
    ∙ rw (cursor-set_cursor code other time cs h) refl
