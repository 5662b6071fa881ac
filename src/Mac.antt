-- ===== src/Mac.antt =====
-- src/eltdx/mac: the rules about prices and the forward adjustment of bars. The frames and the connection of this protocol stand in
-- Frame and Connection.
pub mod PriceRules
pub mod Adjust
