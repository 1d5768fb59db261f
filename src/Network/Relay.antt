-- ===== src/Network/Relay.antt =====
-- network/mod.rs: `handle_message` for new blocks, transactions and compact blocks, which change the
-- chain, the mempool, the scoreboard and the compact blocks that wait for transactions. Sending is
-- taken to succeed.
pub mod Laws
pub mod Sound
pub mod Small
pub mod Missing
use equiforge.Prelude.{
  ℕ, ◌+◌, zero, suc, Bool, true, false, List, [], ◌∷◌, ◌++◌, Bytes, Option, none, some, length, ltb,
  leb, max, bytes_eq, is_empty, if◌then◌else◌, ◌||◌, Result, ok, err, bytes_instance,
}
use equiforge.Prelude.Maps.{Map, get, insert, remove, contains_key}
use equiforge.Types.{Hash256, Transaction, BlockHeader, Block}
use equiforge.Types.Externals.{header_hash}
use equiforge.Types.Bits.{leading_zero_bits}
use equiforge.Types.Coinbase.{is_coinbase}
use equiforge.Crypto.Hashes.{txid_v1}
use equiforge.Chain.Errors.{BlockError, duplicate_block, orphan_block, invalid_height}
use equiforge.Chain.State.{Env, Chain}
use equiforge.Chain.Accept.{add_block}
use equiforge.Network.Peers.{
  PeerScoreboard, record_offense, Offense, invalid_block, invalid_transaction,
}
use equiforge.Network.Mempool.{Mempool, validate_and_add, remove_confirmed, get_pending}
use equiforge.Network.Locator.{build_locator}
use equiforge.Network.Message.{NetMessage, get_headers_from, get_transactions, transaction_batch}
use equiforge.Network.Compact.{
  PendingCompact, make_room, place_found, feed, feed_all, completed, all_there, or_nothing,
}
use equiforge.Network.Node.{NodeState, PeerInfo, Effects, silent, replying, relaying}

-- `DuplicateBlock`, `InvalidHeight` and `OrphanBlock`
unfoldable pub is_harmless : BlockError → Bool
is_harmless duplicate_block = true
is_harmless invalid_height = true
is_harmless orphan_block = true
is_harmless _ = false

unfoldable pub is_orphan : BlockError → Bool
is_orphan orphan_block = true
is_orphan _ = false

module _ {F S : Type 0} (env : Env F S) where
  open env use {ext}

  -- `add_block`, with what follows it where it succeeds.
  unfoldable pub accept_block :
      ℕ → Block → NodeState F S → Result BlockError Hash256 × NodeState F S
  accept_block now block node =
      let (r, chain) = add_block env now block node.chain in
      let pool = remove_confirmed env block node.mempool in
      elim r [
        | ok hash ↦ (ok hash, record node { chain = chain; mempool = pool })
        | err e ↦ (err e, record node { chain = chain })
      ]

  unfoldable pub punish : ℕ → Bytes → Offense → NodeState F S → NodeState F S
  punish now peer_addr offense node = record node {
    scoreboard = (record_offense now peer_addr offense node.scoreboard).1;
  }

  -- `GetHeadersFrom` with a locator of the chain
  abbrev pub resync : NodeState F S → NetMessage
  resync node = get_headers_from (build_locator env node.chain 32) 2000

  -- `best_height` and `last_seen` of the peer
  unfoldable pub see_peer : ℕ → Bytes → ℕ → NodeState F S → NodeState F S
  see_peer now peer_addr height node = elim (get node.peers peer_addr) [
    | none ↦ node
    | some peer ↦ record node {
      peers =
          insert peer_addr
            (record peer { best_height = max peer.best_height height; last_seen = now }) node.peers;
    }
  ]

  -- `NewBlock`
  unfoldable pub on_new_block : ℕ → Bytes → Block → NodeState F S → Effects × NodeState F S
  on_new_block now peer_addr block node =
      let (r, node') = accept_block now block node in
      let seen = see_peer now peer_addr block.header.height node' in
      let punished = punish now peer_addr invalid_block node' in
      elim r [
        | ok _ ↦ (relaying block, seen)
        | err e ↦
            if is_orphan e
            then (replying (resync node'), node')
            else if is_harmless e
            then (silent, node')
            else (silent, punished)
      ]

  -- `NewTransaction`
  unfoldable pub on_new_transaction :
      ℕ → Bytes → Transaction → NodeState F S → Effects × NodeState F S
  on_new_transaction now peer_addr tx node =
      let punished = punish now peer_addr invalid_transaction node in
      let (r, pool) = validate_and_add env node.chain tx node.mempool in
      let added = record node { mempool = pool } in
      if is_coinbase tx then (silent, punished) else elim r [
        | ok _ ↦ (record { replies = []; blocks = []; transactions = tx ∷ [] }, added)
        | err _ ↦ (silent, punish now peer_addr invalid_transaction added)
      ]

  -- `pending_map`: of transactions with one id, the last.
  unfoldable pub find_pending : Hash256 → List Transaction → Option Transaction
  find_pending txid [] = none
  find_pending txid (tx ∷ txs) = elim (find_pending txid txs) [
    | some later ↦ some later
    | none ↦ if bytes_eq (txid_v1 ext tx) txid then some tx else none
  ]

  -- The loop over `short_txids`.
  unfoldable pub reconstruct : List Transaction → List Hash256 → PendingCompact → PendingCompact
  reconstruct pending [] pc = pc
  reconstruct pending (txid ∷ short_txids) pc =
      reconstruct pending short_txids (place_found txid (find_pending txid pending) pc)

  -- A compact block whose transactions are all there, or not.
  unfoldable pub finish_compact :
      ℕ → PendingCompact → List Transaction → NodeState F S → Effects × NodeState F S
  finish_compact now pc txs node =
      let block : Block = record { header = pc.header; transactions = txs } in
      let (r, node') = accept_block now block node in
      elim r [
        | ok _ ↦ (relaying block, node')
        | err e ↦ if is_orphan e then (replying (resync node'), node') else (silent, node')
      ]

  -- It is kept, and what it lacks is asked for.
  unfoldable pub await_compact : Hash256 → PendingCompact → NodeState F S → Effects × NodeState F S
  unfolding make_room
  await_compact block_hash pc node = (
    replying (get_transactions pc.missing),
    record node { pending_compacts = insert block_hash pc (make_room node.pending_compacts) },
  )

  -- `CompactBlock`
  unfoldable pub on_compact_block :
      ℕ → Bytes → BlockHeader → List Hash256 → Transaction → NodeState F S → Effects × NodeState F S
  on_compact_block now peer_addr header short_txids coinbase node =
      let block_hash = header_hash ext header in
      let punished = punish now peer_addr invalid_block (punish now peer_addr invalid_block node) in
      let start : PendingCompact = record {
        header = header;
        txs = some coinbase ∷ [];
        index_map = [];
        missing = [];
        created_at = now;
      } in
      let pc = reconstruct (get_pending env node.mempool) short_txids start in
      let finished = finish_compact now pc (or_nothing (all_there pc.txs)) node in
      if contains_key node.chain.blocks block_hash
      then (silent, node)
      else if ltb (leading_zero_bits block_hash) header.difficulty_target
      then (silent, punished)
      else if is_empty pc.missing
      then finished
      else await_compact block_hash pc node

  -- `GetTransactions`
  unfoldable pub find_all : List Hash256 → List Transaction → List Transaction
  unfolding find_pending
  find_all [] pending = []
  find_all (txid ∷ txids) pending =
      let others = find_all txids pending in
      elim (find_pending txid pending) [ none ↦ others | some tx ↦ tx ∷ others ]

  unfoldable pub on_get_transactions : List Hash256 → NodeState F S → Effects × NodeState F S
  on_get_transactions hashes node =
      let found = find_all hashes (get_pending env node.mempool) in
      if is_empty found then (silent, node) else (replying (transaction_batch found), node)

  -- A block that is complete, taken from the pending ones; the blocks that are sent on before it.
  unfoldable pub finalize : ℕ → Hash256 → List Block × NodeState F S → List Block × NodeState F S
  finalize now block_hash (sent, node) =
      let taken = record node { pending_compacts = remove block_hash node.pending_compacts } in
      elim (get node.pending_compacts block_hash) [
        | none ↦ (sent, taken)
        | some pc ↦ elim (all_there pc.txs) [
          | none ↦ (sent, taken)
          | some txs ↦
              let block : Block = record { header = pc.header; transactions = txs } in
              let tried = accept_block now block taken in
              elim tried.0 [ ok _ ↦ (sent ++ block ∷ [], tried.1) | err _ ↦ (sent, tried.1) ]
        ]
      ]

  unfoldable pub finalize_all :
      ℕ → List Hash256 → List Block × NodeState F S → List Block × NodeState F S
  unfolding finalize
  finalize_all now [] st = st
  finalize_all now (h ∷ hashes) st = finalize_all now hashes (finalize now h st)

  -- One transaction of the batch.
  unfoldable pub take_transaction :
      ℕ → Transaction → List Block × NodeState F S → List Block × NodeState F S
  unfolding feed_all completed finalize_all
  take_transaction now tx (sent, node) =
      let (_, pool) = validate_and_add env node.chain tx node.mempool in
      let pending = feed_all (txid_v1 ext tx) tx node.pending_compacts in
      finalize_all now (completed pending)
        (sent, record node { mempool = pool; pending_compacts = pending })

  unfoldable pub take_transactions :
      ℕ → List Transaction → List Block × NodeState F S → List Block × NodeState F S
  take_transactions now [] st = st
  take_transactions now (tx ∷ txs) st = take_transactions now txs (take_transaction now tx st)

  -- `TransactionBatch`
  unfoldable pub on_transaction_batch :
      ℕ → List Transaction → NodeState F S → Effects × NodeState F S
  on_transaction_batch now txs node =
      let (sent, node') = take_transactions now txs ([], node) in
      (record { replies = []; blocks = sent; transactions = [] }, node')
