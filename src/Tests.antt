-- ===== src/Tests.antt =====
-- Runs of the theorems at concrete inputs, and the constants they share.
pub mod Samples
pub mod Protocol
pub mod Connections
pub mod Files
pub mod ExFiles
pub mod Paging
pub mod Services
pub mod Subscriptions
pub mod Markets
pub mod Pools
