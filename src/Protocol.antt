-- ===== src/Protocol.antt =====
-- protocol/unit.py of src/eltdx: security codes, variable-length integers and K-line times.
pub mod Text
pub mod Digits
pub mod Same
pub mod Code
pub mod Varint
