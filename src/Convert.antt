-- ===== src/Convert.antt =====
-- Package convert: the messages of Bitfinex as FIX messages, and FIX orders as orders of Bitfinex.
pub mod Finite
pub mod OrderType
pub mod ToFix
pub mod FromFix
pub mod Reports
pub mod OrderReports
pub mod MarketData
pub mod Positions
pub mod Fields
pub mod Rejects
pub mod Version1
pub mod Ticker
