-- ===== src/Network/Handler.antt =====
-- network/mod.rs: `handle_message`, one arm for each message.
pub mod Laws
use equiforge.Prelude.{ℕ, [], ◌∷◌, List, Bytes}
use equiforge.Chain.State.{Env}
use equiforge.Network.Message.{
  NetMessage, version, version_ack, new_block, new_transaction, get_blocks, blocks, get_block, ping,
  pong, get_peers, peers, version_v2, get_headers, get_headers_from, headers, get_block_data,
  block_data, compact_block, get_transactions, transaction_batch,
}
use equiforge.Network.Node.{NodeState, Effects, silent}
use equiforge.Network.Relay.{
  on_new_block, on_new_transaction, on_compact_block, on_get_transactions, on_transaction_batch,
}
use equiforge.Network.Serve.{
  answer_headers, answer_headers_from, answer_blocks, answer_block, answer_peers, answer_block_data,
}
use equiforge.Network.Sync.{on_peers, on_pong, on_blocks, on_block_data, on_headers}

abbrev pub answering : List NetMessage → Effects
answering replies = record { replies = replies; blocks = []; transactions = [] }

module _ {F S : Type 0} (env : Env F S) where
  unfoldable pub handle_message : ℕ → Bytes → NetMessage → NodeState F S → Effects × NodeState F S
  handle_message now peer (new_block block) node = on_new_block env now peer block node
  handle_message now peer (get_headers_from locator count) node =
      (answering (answer_headers_from env locator count node), node)
  handle_message now peer (new_transaction tx) node = on_new_transaction env now peer tx node
  handle_message now peer (get_blocks start_height count) node =
      (answering (answer_blocks env start_height count node), node)
  handle_message now peer (blocks sent) node = on_blocks env now peer sent node
  handle_message now peer (get_block hash) node = (answering (answer_block env hash node), node)
  handle_message now peer get_peers node = (answering (answer_peers env node), node)
  handle_message now peer (peers addrs) node = (silent, on_peers env addrs node)
  handle_message now peer (ping nonce) node = (answering (pong nonce ∷ []), node)
  handle_message now peer (pong nonce) node = (silent, on_pong env now peer node)
  handle_message now peer (version v height hash timestamp port) node = (silent, node)
  handle_message now peer version_ack node = (silent, node)
  handle_message now peer (version_v2 v height hash genesis timestamp port) node = (silent, node)
  handle_message now peer (get_headers start_height count) node =
      (answering (answer_headers env start_height count node), node)
  handle_message now peer (headers sent) node = on_headers env peer sent node
  handle_message now peer (get_block_data hashes) node =
      (answering (answer_block_data env hashes node), node)
  handle_message now peer (block_data sent) node = on_block_data env now peer sent node
  handle_message now peer (compact_block header short_txids coinbase) node =
      on_compact_block env now peer header short_txids coinbase node
  handle_message now peer (get_transactions hashes) node = on_get_transactions env hashes node
  handle_message now peer (transaction_batch txs) node = on_transaction_batch env now txs node
