-- ===== src/Protocol/Text.antt =====
-- The text operations of Python that src/eltdx/protocol/unit.py and other modules use, on code
-- points. Digits and white space are those of Unicode 14. Case is that of ASCII: two other characters
-- have a lower-case form in ASCII, U+0130 (i and a dot) and U+212A (k), and no market has these
-- letters.
use Prim.Native.Char.{code}
use Prim.Native.String.{String}
use eltdx.Base.{ℕ, ◌+◌, Bool, true, false, ◌&&◌, ◌||◌, List, [], ◌∷◌, leb, ◌==◌, if◌then◌else◌, map}

abbrev pub Text : Type 0
Text = List ℕ

abbrev pub codes : String → Text
codes String.[] = []
codes (String.◌∷◌ c s) = code c ∷ codes s

abbrev pub text_eq : Text → Text → Bool
text_eq [] [] = true
text_eq (a ∷ us) (b ∷ vs) = a == b && text_eq us vs
text_eq _ _ = false

-- `text.startswith(prefix)`
abbrev pub starts_with : Text → Text → Bool
starts_with [] text = true
starts_with (p ∷ ps) [] = false
starts_with (p ∷ ps) (c ∷ cs) = p == c && starts_with ps cs

-- `text.startswith((prefix, ...))`
abbrev pub starts_with_any : List Text → Text → Bool
starts_with_any [] text = false
starts_with_any (p ∷ ps) text = starts_with p text || starts_with_any ps text

-- `word in text`
abbrev pub contains : Text → Text → Bool
contains word [] = starts_with word []
contains word (c ∷ cs) = starts_with word (c ∷ cs) || contains word cs

-- `text in (...)`
abbrev pub member : Text → List Text → Bool
member t [] = false
member t (u ∷ us) = text_eq t u || member t us

-- The characters in one of some ranges, each from its first to its last one.
unfoldable pub in_ranges : List (ℕ × ℕ) → ℕ → Bool
in_ranges [] c = false
in_ranges ((first, last) ∷ ranges) c = (leb first c && leb c last) || in_ranges ranges c

-- The digits outside ASCII, and the white space, of Unicode 14.
abbrev pub wide_digits : List (ℕ × ℕ)
wide_digits =
    (0xb2, 0xb3)
    ∷ (0xb9, 0xb9)
    ∷ (0x660, 0x669)
    ∷ (0x6f0, 0x6f9)
    ∷ (0x7c0, 0x7c9)
    ∷ (0x966, 0x96f)
    ∷ (0x9e6, 0x9ef)
    ∷ (0xa66, 0xa6f)
    ∷ (0xae6, 0xaef)
    ∷ (0xb66, 0xb6f)
    ∷ (0xbe6, 0xbef)
    ∷ (0xc66, 0xc6f)
    ∷ (0xce6, 0xcef)
    ∷ (0xd66, 0xd6f)
    ∷ (0xde6, 0xdef)
    ∷ (0xe50, 0xe59)
    ∷ (0xed0, 0xed9)
    ∷ (0xf20, 0xf29)
    ∷ (0x1040, 0x1049)
    ∷ (0x1090, 0x1099)
    ∷ (0x1369, 0x1371)
    ∷ (0x17e0, 0x17e9)
    ∷ (0x1810, 0x1819)
    ∷ (0x1946, 0x194f)
    ∷ (0x19d0, 0x19da)
    ∷ (0x1a80, 0x1a89)
    ∷ (0x1a90, 0x1a99)
    ∷ (0x1b50, 0x1b59)
    ∷ (0x1bb0, 0x1bb9)
    ∷ (0x1c40, 0x1c49)
    ∷ (0x1c50, 0x1c59)
    ∷ (0x2070, 0x2070)
    ∷ (0x2074, 0x2079)
    ∷ (0x2080, 0x2089)
    ∷ (0x2460, 0x2468)
    ∷ (0x2474, 0x247c)
    ∷ (0x2488, 0x2490)
    ∷ (0x24ea, 0x24ea)
    ∷ (0x24f5, 0x24fd)
    ∷ (0x24ff, 0x24ff)
    ∷ (0x2776, 0x277e)
    ∷ (0x2780, 0x2788)
    ∷ (0x278a, 0x2792)
    ∷ (0xa620, 0xa629)
    ∷ (0xa8d0, 0xa8d9)
    ∷ (0xa900, 0xa909)
    ∷ (0xa9d0, 0xa9d9)
    ∷ (0xa9f0, 0xa9f9)
    ∷ (0xaa50, 0xaa59)
    ∷ (0xabf0, 0xabf9)
    ∷ (0xff10, 0xff19)
    ∷ (0x104a0, 0x104a9)
    ∷ (0x10a40, 0x10a43)
    ∷ (0x10d30, 0x10d39)
    ∷ (0x10e60, 0x10e68)
    ∷ (0x11052, 0x1105a)
    ∷ (0x11066, 0x1106f)
    ∷ (0x110f0, 0x110f9)
    ∷ (0x11136, 0x1113f)
    ∷ (0x111d0, 0x111d9)
    ∷ (0x112f0, 0x112f9)
    ∷ (0x11450, 0x11459)
    ∷ (0x114d0, 0x114d9)
    ∷ (0x11650, 0x11659)
    ∷ (0x116c0, 0x116c9)
    ∷ (0x11730, 0x11739)
    ∷ (0x118e0, 0x118e9)
    ∷ (0x11950, 0x11959)
    ∷ (0x11c50, 0x11c59)
    ∷ (0x11d50, 0x11d59)
    ∷ (0x11da0, 0x11da9)
    ∷ (0x16a60, 0x16a69)
    ∷ (0x16ac0, 0x16ac9)
    ∷ (0x16b50, 0x16b59)
    ∷ (0x1d7ce, 0x1d7ff)
    ∷ (0x1e140, 0x1e149)
    ∷ (0x1e2f0, 0x1e2f9)
    ∷ (0x1e950, 0x1e959)
    ∷ (0x1f100, 0x1f10a)
    ∷ (0x1fbf0, 0x1fbf9)
    ∷ []

abbrev pub wide_spaces : List (ℕ × ℕ)
wide_spaces =
    (0x85, 0x85)
    ∷ (0xa0, 0xa0)
    ∷ (0x1680, 0x1680)
    ∷ (0x2000, 0x200a)
    ∷ (0x2028, 0x2029)
    ∷ (0x202f, 0x202f)
    ∷ (0x205f, 0x205f)
    ∷ (0x3000, 0x3000)
    ∷ []

abbrev pub is_ascii_digit : ℕ → Bool
is_ascii_digit c = leb b'0' c && leb c b'9'

-- `char.isdigit()`
abbrev pub is_digit : ℕ → Bool
is_digit c = is_ascii_digit c || in_ranges wide_digits c

abbrev pub all_digits : Text → Bool
all_digits [] = true
all_digits (c ∷ cs) = is_digit c && all_digits cs

-- `text.isdigit()`
abbrev pub is_digits : Text → Bool
is_digits [] = false
is_digits (c ∷ cs) = is_digit c && all_digits cs

abbrev pub to_lower : ℕ → ℕ
to_lower c = if leb b'A' c && leb c b'Z' then c + 32 else c

-- `text.lower()`
abbrev pub lower : Text → Text
lower = map to_lower

-- `char.isspace()`
abbrev pub is_space : ℕ → Bool
is_space c = (leb 9 c && leb c 13) || ((leb 28 c && leb c 32) || in_ranges wide_spaces c)

abbrev pub lstrip : Text → Text
lstrip [] = []
lstrip (c ∷ cs) = let rest = lstrip cs in if is_space c then rest else c ∷ cs

abbrev pub drop_last_space : ℕ → Text → Text
drop_last_space c [] = if is_space c then [] else c ∷ []
drop_last_space c (d ∷ ds) = c ∷ d ∷ ds

abbrev pub rstrip : Text → Text
rstrip [] = []
rstrip (c ∷ cs) = drop_last_space c (rstrip cs)

-- `text.strip()`
abbrev pub strip : Text → Text
strip text = rstrip (lstrip text)
