-- ===== src/Offline/MinBar/Laws.antt =====
-- The bytes of a minute bar: the packed date and time.
use eltdx.Base.{ℕ, ◌+◌, ◌-◌, ◌*◌, ◌/◌, ◌%◌, ◌<◌, ◌≤◌, ◌≡◌, refl, le→leb, arith}
use eltdx.Base.Int.{pos, add_ℤ-pos, scale-pos}
use eltdx.Offline.MinBar.{decode_tdx_date, encode_tdx_date}

pub encode_tdx_date-pos :
    (year month day : ℕ)
    → 2004 ≤ year
    → encode_tdx_date year month day ≡ pos ((year - 2004) * 2048 + (month * 100 + day))
encode_tdx_date-pos year month day h =
    rw (le→leb 2004 year h, scale-pos (year - 2004) 2048)
      (add_ℤ-pos ((year - 2004) * 2048) (month * 100 + day))

-- The three parts of a packed date, where the month and the day leave the year's bits alone.
pub date_read :
    (year month day : ℕ)
    → 2004 ≤ year
    → month < 20
    → day < 100
    → decode_tdx_date ((year - 2004) * 2048 + (month * 100 + day)) ≡ (year, month, day)
date_read year month day low m d = rw (y_read, m_read, d_read) refl
  where
    num : ℕ
    num = (year - 2004) * 2048 + (month * 100 + day)

    y_read : num / 2048 + 2004 ≡ year
    y_read = omega arith

    m_read : num % 2048 / 100 ≡ month
    m_read = omega arith

    d_read : num % 2048 % 100 ≡ day
    d_read = omega arith

-- A date of the years that the format can hold fits in two bytes and is read back.
pub decode-encode_tdx_date :
    (year month day : ℕ)
    → 2004 ≤ year
    → year < 2036
    → month < 20
    → day < 100
    → (num : ℕ) × (encode_tdx_date year month day ≡ pos num)
      × (num < 65536)
      × (decode_tdx_date num ≡ (year, month, day))
decode-encode_tdx_date year month day low high m d =
    (_, encode_tdx_date-pos year month day low, omega arith, date_read year month day low m d)
