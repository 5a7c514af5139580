-- ===== src/Inbound.antt =====
-- service/fix/fix_msg.go: the messages of the FIX clients, and what they ask of Bitfinex.
pub mod Orders
pub mod NewOrder
pub mod MarketData
pub mod RoundTrips
pub mod Expiry
pub mod Flags
pub mod CancelReplace
pub mod Cancel
pub mod Status
pub mod Evolves
