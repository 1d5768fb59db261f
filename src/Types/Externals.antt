-- ===== src/Types/Externals.antt =====
-- What the crate takes from other packages: `sha2`, `bincode` with serde's derived encodings, and
-- `ed25519_dalek`; and the proof-of-work hash, which the modules of core/ call through the header.
use equiforge.Prelude.{ℕ, Bool, Bytes, length}
use equiforge.Types.Data.{Hash256, Transaction, BlockHeader, Block}

pub record Externals : Type 0 where
  -- `Sha256::digest`
  pub sha256 : Bytes → Bytes
  -- `bincode::serialize`
  pub serialize_tx : Transaction → Bytes
  pub serialize_header : BlockHeader → Bytes
  pub serialize_block : Block → Bytes
  -- `VerifyingKey::from_bytes` followed by `verify`, false where either fails: public key, message
  -- and signature
  pub ed25519_verify : Bytes → Bytes → Bytes → Bool
  -- `pow::equihash_x`
  pub equihash_x : Bytes → Hash256

module _ (ext : Externals) where
  open ext use {sha256, serialize_tx, serialize_header, serialize_block, equihash_x}

  -- SHA-256 twice, as `Transaction::hash`, `id_hash`, `pubkey_bytes_to_hash` and others do.
  unfoldable pub double_sha256 : Bytes → Hash256
  double_sha256 data_bytes = sha256 (sha256 data_bytes)

  -- `Transaction::hash`
  unfoldable pub tx_hash : Transaction → Hash256
  unfolding double_sha256
  tx_hash tx = double_sha256 (serialize_tx tx)

  -- `Transaction::size` and `Block::size`
  unfoldable pub tx_size : Transaction → ℕ
  tx_size tx = length (serialize_tx tx)

  unfoldable pub block_size : Block → ℕ
  block_size block = length (serialize_block block)

  -- `BlockHeader::hash` and `BlockHeader::id_hash`
  unfoldable pub header_hash : BlockHeader → Hash256
  header_hash header = equihash_x (serialize_header header)

  unfoldable pub id_hash : BlockHeader → Hash256
  unfolding double_sha256
  id_hash header = double_sha256 (serialize_header header)
