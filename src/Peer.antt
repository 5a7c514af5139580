-- ===== src/Peer.antt =====
-- service/peer: the state that one FIX session keeps.
pub mod Order
pub mod Cache
pub mod Nonce
pub mod Lifecycle
