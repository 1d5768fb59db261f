-- ===== src/Script.antt =====
-- core/script.rs: the standard scripts and their check.
pub mod Encoding
pub mod Spend
