-- ===== src/Api.antt =====
-- The parts of src/eltdx/api that put several requests together.
pub mod Trades
pub mod Subscription
pub mod Batch
