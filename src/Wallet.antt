-- ===== src/Wallet.antt =====
-- wallet/mod.rs: keys, the encrypted file, the choice of outputs and the building of transactions.
pub mod Keys
pub mod Cipher
pub mod File
pub mod Coins
pub mod Send
pub mod Base58
pub mod Address
