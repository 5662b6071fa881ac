-- ===== src/Pool.antt =====
-- The connection pool: its layout in src/eltdx/transport/_config.py, and the engine and the pinned
-- connections of src/eltdx/transport/pool.py.
pub mod Layout
pub mod Transport
pub mod Config
