-- ===== src/Network.antt =====
-- network/mod.rs: what the node keeps about its peers, the mempool, and the block locator.
pub mod Peers
pub mod Mempool
pub mod Locator
pub mod Message
pub mod Compact
pub mod Node
pub mod Relay
pub mod Serve
pub mod Sync
pub mod Handler
pub mod Connection
pub mod Maintenance
