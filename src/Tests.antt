-- ===== src/Tests.antt =====
-- Tests, and the theorems at concrete inputs.
mod Values
mod Caches
mod MarketData
mod Layout
mod Orders
mod Symbols
mod Cancels
mod Lifecycle
mod Sessions
mod Unidentified
mod Overflow
mod Flags
