-- ===== src/Ex/Login.antt =====
-- The login of a MAC-EX session: src/eltdx/ex/commands/login.py.
use eltdx.Base.{ℕ, Bool, [], ◌∷◌, ◌++◌, length, Result, ok, leb}
use eltdx.Wire.{Bytes, le_bytes, pack_uint}
use eltdx.Wire.Records.{pack_row}

abbrev msg_id : ℕ
msg_id = 0x2454

abbrev head_flag : ℕ
head_flag = 0x01

abbrev login_body : Bytes
login_body =
    0xe5 ∷ 0xbb ∷ 0x1c ∷ 0x2f ∷ 0xaf ∷ 0xe5 ∷ 0x25 ∷ 0x94 ∷ 0x1f ∷ 0x32 ∷ 0xc6 ∷ 0xe5 ∷ 0xd5 ∷ 0x3d
    ∷ 0xfb ∷ 0x41 ∷ 0x5b ∷ 0x73 ∷ 0x4c ∷ 0xc9 ∷ 0xcd ∷ 0xbf ∷ 0x0a ∷ 0xc9 ∷ 0x20 ∷ 0x21 ∷ 0xbf
    ∷ 0xdd ∷ 0x1e ∷ 0xb0 ∷ 0x6d ∷ 0x22 ∷ 0xd0 ∷ 0x08 ∷ 0x88 ∷ 0x4c ∷ 0x16 ∷ 0x11 ∷ 0xcb ∷ 0x13
    ∷ 0x78 ∷ 0xf6 ∷ 0xab ∷ 0xd8 ∷ 0x24 ∷ 0xd8 ∷ 0x99 ∷ 0xd2 ∷ 0x1f ∷ 0x32 ∷ 0xc6 ∷ 0xe5 ∷ 0xd5
    ∷ 0x3d ∷ 0xfb ∷ 0x41 ∷ 0x1f ∷ 0x32 ∷ 0xc6 ∷ 0xe5 ∷ 0xd5 ∷ 0x3d ∷ 0xfb ∷ 0x41 ∷ 0xa9 ∷ 0x32
    ∷ 0x5a ∷ 0xc9 ∷ 0x35 ∷ 0xdc ∷ 0x08 ∷ 0x37 ∷ 0x33 ∷ 0x5a ∷ 0x16 ∷ 0xe4 ∷ 0xce ∷ 0x17 ∷ 0xc1
    ∷ 0xbb ∷ []

-- `struct.pack("<BIBHH", ...)` and the bytes that it counts twice
unfoldable pub build_login : Result Bytes
unfolding pack_row
build_login =
    let inner = le_bytes 2 msg_id ++ login_body in
    pack_row (
      pack_uint 1 head_flag
      ∷ pack_uint 4 0
      ∷ pack_uint 1 1
      ∷ pack_uint 2 (length inner)
      ∷ pack_uint 2 (length inner)
      ∷ ok inner
      ∷ [])

-- `parse_response`
pub parse_login : Bytes → Bool
parse_login body = leb 2 (length body)
