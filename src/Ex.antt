-- ===== src/Ex.antt =====
-- The extended markets: the commands of src/eltdx/ex/commands and the pagination of
-- src/eltdx/ex/_hk_transaction.py.
pub mod Transaction
pub mod HkTransaction
pub mod Range
pub mod Bars
pub mod Instruments
pub mod Minute
pub mod QuoteList
pub mod Quote
pub mod Login
