-- ===== src/Network/Message.antt =====
-- network/mod.rs: `NetMessage`, and its framing in `encode_message` and `read_message`. A stream is
-- the bytes still to be read; the encoding of the payload is `bincode`'s.
use equiforge.Prelude.{
  ℕ, ◌*◌, ◌%◌, List, Bytes, ◌++◌, Option, none, some, length, take, drop, ltb, not, bytes_eq,
  u32_mod, u32_le, Result, ok, err, ◌>>◌, fail_if,
}
use equiforge.Types.{Hash256, BlockHeader, Block, Transaction}
use equiforge.Storage.Keys.{from_le}

pub data NetMessage : Type 0 where
  version : (version best_height : ℕ) (best_hash : Hash256) (timestamp listen_port : ℕ) → NetMessage
  version_ack : NetMessage
  new_block : Block → NetMessage
  new_transaction : Transaction → NetMessage
  get_blocks : (start_height count : ℕ) → NetMessage
  blocks : List Block → NetMessage
  get_block : Hash256 → NetMessage
  ping : ℕ → NetMessage
  pong : ℕ → NetMessage
  get_peers : NetMessage
  peers : List Bytes → NetMessage
  version_v2 :
      (version best_height : ℕ) (best_hash genesis_hash : Hash256) (timestamp listen_port : ℕ)
      → NetMessage
  get_headers : (start_height count : ℕ) → NetMessage
  get_headers_from : (locator : List Hash256) (count : ℕ) → NetMessage
  headers : List BlockHeader → NetMessage
  get_block_data : List Hash256 → NetMessage
  block_data : List Block → NetMessage
  compact_block :
      (header : BlockHeader) (short_txids : List Hash256) (coinbase : Transaction) → NetMessage
  get_transactions : List Hash256 → NetMessage
  transaction_batch : List Transaction → NetMessage

abbrev pub max_message_size : ℕ
max_message_size = 64 * 1024 * 1024

-- The texts of the errors of `read_message`.
pub data FrameError : Type 0 where
  read_header invalid_magic message_too_large read_payload deserialize : FrameError

-- The magic bytes of the network, and `bincode` on the messages.
pub record WireFormat : Type 0 where
  pub magic : Bytes
  pub serialize : NetMessage → Bytes
  pub deserialize : Bytes → Option NetMessage

module _ (wire : WireFormat) where
  unfoldable pub encode_message : NetMessage → Bytes
  encode_message msg =
      let payload = wire.serialize msg in
      wire.magic ++ (u32_le (length payload % u32_mod) ++ payload)

  -- What is left of the stream comes with the message.
  unfoldable pub read_message : Bytes → Result FrameError (NetMessage × Bytes)
  read_message stream = do
    fail_if (ltb (length stream) 8) read_header
    fail_if (not (bytes_eq (take 4 stream) wire.magic)) invalid_magic
    let size = from_le (take 4 (drop 4 stream))
    let others = drop 8 stream
    fail_if (ltb max_message_size size) message_too_large
    fail_if (ltb (length others) size) read_payload
    elim (wire.deserialize (take size others)) [
      | none ↦ err deserialize
      | some msg ↦ ok (msg, drop size others)
    ]
