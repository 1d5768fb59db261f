-- ===== src/Types.antt =====
-- core/types.rs: transactions, headers and blocks, and what is computed from them.
mod Data
pub mod Externals
pub mod Coinbase
pub mod Bits
pub mod Merkle
unfoldable pub use Data.*
