-- ===== src/Offline.antt =====
-- The local data files of src/eltdx/offline: fixed-size records, read whole and appended to.
pub mod Floats
pub mod Append
pub mod Daily
pub mod MinBar
pub mod ExDaily
pub mod Security
