-- ===== src/Wire.antt =====
-- Bytes, slices and the little-endian integers of `struct`, as the whole program uses them.
mod Le
pub mod Records
pub mod Counted
pub mod Inside
pub use Le.*
