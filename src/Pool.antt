-- ===== src/Pool.antt =====
-- pool/mod.rs: the mining pool of the node.
pub mod Wire
pub mod State
pub mod Share
pub mod Session
pub mod Miner
