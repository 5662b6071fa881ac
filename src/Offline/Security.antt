-- ===== src/Offline/Security.antt =====
-- The kind of a security by the name of its file: `detect_security_type` and
-- `security_coefficients` of src/eltdx/offline/daily_bar.py. A name is the last part of a path.
use eltdx.Base.{ℕ, [], ◌∷◌, take, drop, if◌then◌else◌}
use eltdx.Protocol.Text.{Text, codes, lower, text_eq, member}

pub data SecurityType : Type 0 where
  sh_a_stock sh_b_stock sh_index sh_fund sh_bond : SecurityType
  sz_a_stock sz_b_stock sz_index sz_fund sz_bond : SecurityType
  unknown : SecurityType

abbrev pub detect_sz : Text → SecurityType
detect_sz code_head =
    if member code_head (codes "00" ∷ codes "30" ∷ [])
    then sz_a_stock
    else if text_eq code_head (codes "20")
    then sz_b_stock
    else if text_eq code_head (codes "39")
    then sz_index
    else if member code_head (codes "15" ∷ codes "16" ∷ codes "17" ∷ codes "18" ∷ [])
    then sz_fund
    else if member code_head (codes "10" ∷ codes "11" ∷ codes "12" ∷ codes "13" ∷ codes "14" ∷ [])
    then sz_bond
    else unknown

abbrev pub detect_sh : Text → SecurityType
detect_sh code_head =
    if member code_head (codes "60" ∷ codes "68" ∷ [])
    then sh_a_stock
    else if text_eq code_head (codes "90")
    then sh_b_stock
    else if member code_head (codes "00" ∷ codes "88" ∷ codes "99" ∷ [])
    then sh_index
    else if member code_head (
        codes "50"
        ∷ codes "51"
        ∷ codes "52"
        ∷ codes "53"
        ∷ codes "55"
        ∷ codes "56"
        ∷ codes "58"
        ∷ [])
    then sh_fund
    else if member code_head (
        codes "01"
        ∷ codes "10"
        ∷ codes "11"
        ∷ codes "12"
        ∷ codes "13"
        ∷ codes "14"
        ∷ codes "20"
        ∷ [])
    then sh_bond
    else unknown

unfoldable pub detect_security_type : Text → SecurityType
detect_security_type name =
    let base = lower name in
    let exchange = take 2 base in
    let code_head = take 2 (drop 2 base) in
    if text_eq exchange (codes "sz")
    then detect_sz code_head
    else if text_eq exchange (codes "sh")
    then detect_sh code_head
    else unknown

-- The price and volume coefficients, in thousandths
abbrev pub coefficients_of : SecurityType → ℕ × ℕ
coefficients_of sh_a_stock = (10, 10)
coefficients_of sh_b_stock = (1, 10)
coefficients_of sh_index = (10, 1000)
coefficients_of sh_fund = (1, 1000)
coefficients_of sh_bond = (1, 1000)
coefficients_of sz_a_stock = (10, 10)
coefficients_of sz_b_stock = (10, 10)
coefficients_of sz_index = (10, 1000)
coefficients_of sz_fund = (1, 10)
coefficients_of sz_bond = (1, 10)
coefficients_of unknown = (10, 10)

unfoldable pub security_coefficients : Text → ℕ × ℕ
unfolding detect_security_type
security_coefficients name = coefficients_of (detect_security_type name)
