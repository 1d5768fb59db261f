-- ===== src/Storage.antt =====
-- storage/mod.rs: the database of the node, over a key-value store.
pub mod Sled
pub mod Keys
pub mod Db
pub mod Ops
