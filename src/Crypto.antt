-- ===== src/Crypto.antt =====
-- crypto/mod.rs and crypto/txid.rs: transaction ids, signing hashes and signature checks.
pub mod Hashes
pub mod Txid
pub mod Signing
