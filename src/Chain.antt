-- ===== src/Chain.antt =====
-- core/chain.rs: the UTXO set, validation, the block tree and its reorganisations.
pub mod Utxo
pub mod Errors
pub mod Validate
pub mod Connect
pub mod Difficulty
pub mod Stored
pub mod State
pub mod Action
pub mod Persist
pub mod Genesis
pub mod BlockRules
pub mod Reorg
pub mod Accept
pub mod Headers
pub mod Load
