-- ===== src/Network/Handler/Laws.antt =====
-- What every message leaves in order.
use equiforge.Prelude.{
  ℕ, is_empty, bytes_instance, Bool-cases, inl, inr, All, Bytes, length, ltb, true, List,
}
use equiforge.Types.{Hash256}
use equiforge.Chain.State.{Env}
use equiforge.Network.Mempool.{get_pending}
use equiforge.Network.Message.{
  NetMessage, version, version_ack, new_block, new_transaction, get_blocks, blocks, get_block, ping,
  pong, get_peers, peers, version_v2, get_headers, get_headers_from, headers, get_block_data,
  block_data, compact_block, get_transactions, transaction_batch,
}
use equiforge.Network.Node.{NodeState}
use equiforge.Network.Relay.{on_get_transactions, find_all, on_transaction_batch}
use equiforge.Network.Relay.Laws.{
  HasRoom, on_new_block-HasRoom, on_new_transaction-HasRoom, on_compact_block-HasRoom,
  on_transaction_batch-HasRoom,
}
use equiforge.Network.Relay.Small.{
  on_new_block-IsSmall, on_new_transaction-IsSmall, on_compact_block-IsSmall,
  on_get_transactions-IsSmall,
}
use equiforge.Network.Serve.{answer_peers}
use equiforge.Network.Serve.Laws.{
  IsSmall, answer_headers-IsSmall, answer_headers_from-IsSmall, answer_blocks-IsSmall,
  answer_block-IsSmall, answer_block_data-IsSmall,
}
use equiforge.Network.Sync.{on_blocks, on_block_data, on_peers}
use equiforge.Network.Sync.Laws.{
  on_blocks-IsSmall, on_block_data-IsSmall, on_headers-IsSmall, on_headers-pending, on_pong-pending,
  take_blocks-pending,
}
use equiforge.Network.Handler.{handle_message}

module _ {F S : Type 0} (env : Env F S) where
  on_get_transactions-HasRoom :
      (hashes : List Hash256) (node : NodeState F S)
      → HasRoom env node
      → HasRoom env (on_get_transactions env hashes node).1
  unfolding on_get_transactions
  on_get_transactions-HasRoom hashes node room =
      let found = find_all env hashes (get_pending env node.mempool) in
      elim (Bool-cases (is_empty found)) [
        | inl nothing ↦ rw nothing room
        | inr something ↦ rw something room
      ]

  -- Whatever message a peer sends, no more than 50 compact blocks wait for transactions
  -- afterwards, if no more did before.
  pub handle_message-HasRoom :
      (now : ℕ) (peer : Bytes) (m : NetMessage) (node : NodeState F S)
      → HasRoom env node
      → HasRoom env (handle_message env now peer m node).1
  unfolding handle_message on_blocks on_block_data on_peers
  handle_message-HasRoom now peer (new_block block) node room =
      on_new_block-HasRoom env now peer block node room
  handle_message-HasRoom now peer (new_transaction tx) node room =
      on_new_transaction-HasRoom env now peer tx node room
  handle_message-HasRoom now peer (blocks sent) node room =
      rw (take_blocks-pending env (ltb 10 (length sent)) now peer sent node) room
  handle_message-HasRoom now peer (block_data sent) node room =
      rw (take_blocks-pending env true now peer sent node) room
  handle_message-HasRoom now peer (pong nonce) node room =
      rw (on_pong-pending env now peer node) room
  handle_message-HasRoom now peer (headers sent) node room =
      rw (on_headers-pending env peer sent node) room
  handle_message-HasRoom now peer (compact_block header ids coinbase) node room =
      on_compact_block-HasRoom env now peer header ids coinbase node room
  handle_message-HasRoom now peer (get_transactions hashes) node room =
      on_get_transactions-HasRoom hashes node room
  handle_message-HasRoom now peer (transaction_batch txs) node room =
      on_transaction_batch-HasRoom env now txs node room
  handle_message-HasRoom now peer (get_headers_from locator count) node room = room
  handle_message-HasRoom now peer (get_blocks start count) node room = room
  handle_message-HasRoom now peer (get_block hash) node room = room
  handle_message-HasRoom now peer get_peers node room = room
  handle_message-HasRoom now peer (peers addrs) node room = room
  handle_message-HasRoom now peer (ping nonce) node room = room
  handle_message-HasRoom now peer (version v height hash timestamp port) node room = room
  handle_message-HasRoom now peer version_ack node room = room
  handle_message-HasRoom now peer (version_v2 v height hash genesis timestamp port) node room = room
  handle_message-HasRoom now peer (get_headers start count) node room = room
  handle_message-HasRoom now peer (get_block_data hashes) node room = room

  -- Whatever message a peer sends, no reply holds more than 2000 headers, 500 blocks for heights
  -- or 100 blocks for hashes, none asks for more than 100 blocks, and no locator in one has more
  -- than 33 hashes.
  pub handle_message-IsSmall :
      (now : ℕ) (peer : Bytes) (m : NetMessage) (node : NodeState F S)
      → All IsSmall (handle_message env now peer m node).0.replies
  unfolding handle_message on_transaction_batch answer_peers
  handle_message-IsSmall now peer (new_block block) node =
      on_new_block-IsSmall env now peer block node
  handle_message-IsSmall now peer (new_transaction tx) node =
      on_new_transaction-IsSmall env now peer tx node
  handle_message-IsSmall now peer (blocks sent) node = on_blocks-IsSmall env now peer sent node
  handle_message-IsSmall now peer (block_data sent) node =
      on_block_data-IsSmall env now peer sent node
  handle_message-IsSmall now peer (headers sent) node = on_headers-IsSmall env peer sent node
  handle_message-IsSmall now peer (compact_block header ids coinbase) node =
      on_compact_block-IsSmall env now peer header ids coinbase node
  handle_message-IsSmall now peer (get_transactions hashes) node =
      on_get_transactions-IsSmall env hashes node
  handle_message-IsSmall now peer (get_headers_from locator count) node =
      answer_headers_from-IsSmall env locator count node
  handle_message-IsSmall now peer (get_headers start count) node =
      answer_headers-IsSmall env start count node
  handle_message-IsSmall now peer (get_blocks start count) node =
      answer_blocks-IsSmall env start count node
  handle_message-IsSmall now peer (get_block hash) node = answer_block-IsSmall env hash node
  handle_message-IsSmall now peer (get_block_data hashes) node =
      answer_block_data-IsSmall env hashes node
  handle_message-IsSmall now peer (transaction_batch txs) node = tt
  handle_message-IsSmall now peer (pong nonce) node = tt
  handle_message-IsSmall now peer get_peers node = (tt, tt)
  handle_message-IsSmall now peer (peers addrs) node = tt
  handle_message-IsSmall now peer (ping nonce) node = (tt, tt)
  handle_message-IsSmall now peer (version v height hash timestamp port) node = tt
  handle_message-IsSmall now peer version_ack node = tt
  handle_message-IsSmall now peer (version_v2 v height hash genesis timestamp port) node = tt
