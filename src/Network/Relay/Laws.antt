-- ===== src/Network/Relay/Laws.antt =====
-- No more than 50 compact blocks are kept, whatever the peers send.
use equiforge.Prelude.{
  ℕ, ◌≤◌, ◌≡◌, refl, arith, Bool-cases, inl, inr, List, [], ◌∷◌, some, Option-cases, length, ltb,
  is_empty, Result-cases, bytes_instance, Bytes,
}
use equiforge.Prelude.Maps.{get, insert, remove, contains_key}
use equiforge.Types.{Hash256, Transaction, BlockHeader, Block}
use equiforge.Types.Externals.{header_hash}
use equiforge.Types.Bits.{leading_zero_bits}
use equiforge.Types.Coinbase.{is_coinbase}
use equiforge.Crypto.Hashes.{txid_v1}
use equiforge.Network.Mempool.{validate_and_add, get_pending}
use equiforge.Chain.State.{Env}
use equiforge.Network.Node.{NodeState}
use equiforge.Network.Relay.{
  accept_block, punish, see_peer, finalize, finalize_all, take_transaction, take_transactions,
  on_new_block, on_new_transaction, finish_compact, await_compact, on_compact_block,
  on_transaction_batch, is_orphan, is_harmless, reconstruct,
}
use equiforge.Chain.Accept.{add_block}
use equiforge.Network.Compact.{
  PendingCompact, make_room, feed_all, completed, all_there, or_nothing,
}
use equiforge.Network.Compact.Laws.{length-remove, make_room-bound, length-feed_all}

module _ {F S : Type 0} (env : Env F S) where
  -- At most 50 compact blocks wait for transactions.
  abbrev pub HasRoom : NodeState F S → Type 0
  HasRoom node = length node.pending_compacts ≤ 50

  pub accept_block-pending :
      (now : ℕ) (block : Block) (node : NodeState F S)
      → (accept_block env now block node).1.pending_compacts ≡ node.pending_compacts
  unfolding accept_block
  accept_block-pending now block node = elim (Result-cases (add_block env now block node.chain).0) [
    | inl (hash, accepted) ↦ rw (accept_block, accepted) refl
    | inr (e, refused) ↦ rw (accept_block, refused) refl
  ]

  see_peer-pending :
      (now : ℕ) (peer : Bytes) (height : ℕ) (node : NodeState F S)
      → (see_peer env now peer height node).pending_compacts ≡ node.pending_compacts
  unfolding see_peer
  see_peer-pending now peer height node = elim (Option-cases (get node.peers peer)) [
    | inl nobody ↦ rw (see_peer, nobody) refl
    | inr (info, known) ↦ rw (see_peer, known) refl
  ]

  pub on_new_block-HasRoom :
      (now : ℕ) (peer : Bytes) (block : Block) (node : NodeState F S)
      → HasRoom node
      → HasRoom (on_new_block env now peer block node).1
  unfolding on_new_block punish
  on_new_block-HasRoom now peer block node room =
      let node' = (accept_block env now block node).1 in
      let same = accept_block-pending now block node in
      let seen = see_peer-pending now peer block.header.height node' in
      elim (Result-cases (accept_block env now block node).0) [
        | inl (hash, accepted) ↦ rw (on_new_block, accepted, seen, same) room
        | inr (e, refused) ↦ elim (Bool-cases (is_orphan e)) [
          | inl orphan ↦ rw (on_new_block, refused, orphan, same) room
          | inr other ↦ elim (Bool-cases (is_harmless e)) [
            | inl fine ↦ rw (on_new_block, refused, other, fine, same) room
            | inr bad ↦ rw (on_new_block, refused, other, bad, same) room
          ]
        ]
      ]

  -- Punishing a peer leaves the pending blocks.
  pub on_new_transaction-HasRoom :
      (now : ℕ) (peer : Bytes) (tx : Transaction) (node : NodeState F S)
      → HasRoom node
      → HasRoom (on_new_transaction env now peer tx node).1
  unfolding on_new_transaction punish
  on_new_transaction-HasRoom now peer tx node room = elim (Bool-cases (is_coinbase tx)) [
    | inl coinbase ↦ rw coinbase room
    | inr plain ↦ elim (Result-cases (validate_and_add env node.chain tx node.mempool).0) [
      | inl (txid, taken) ↦ rw (on_new_transaction, plain, taken) room
      | inr (e, refused) ↦ rw (on_new_transaction, plain, refused) room
    ]
  ]

  finish_compact-HasRoom :
      (now : ℕ) (pc : PendingCompact) (txs : List Transaction) (node : NodeState F S)
      → HasRoom node
      → HasRoom (finish_compact env now pc txs node).1
  unfolding finish_compact
  finish_compact-HasRoom now pc txs node room =
      let block : Block = record { header = pc.header; transactions = txs } in
      let same = accept_block-pending now block node in
      elim (Result-cases (accept_block env now block node).0) [
        | inl (hash, accepted) ↦ rw (finish_compact, accepted, same) room
        | inr (e, refused) ↦ elim (Bool-cases (is_orphan e)) [
          | inl orphan ↦ rw (finish_compact, refused, orphan, same) room
          | inr other ↦ rw (finish_compact, refused, other, same) room
        ]
      ]

  await_compact-HasRoom :
      (h : Hash256) (pc : PendingCompact) (node : NodeState F S)
      → HasRoom node
      → HasRoom (await_compact env h pc node).1
  unfolding await_compact insert
  await_compact-HasRoom h pc node room = omega (
    arith,
    make_room-bound node.pending_compacts room,
    length-remove h (make_room node.pending_compacts),
  )

  pub on_compact_block-HasRoom :
      (now : ℕ) (peer : Bytes) (header : BlockHeader) (ids : List Hash256) (coinbase : Transaction)
      (node : NodeState F S)
      → HasRoom node
      → HasRoom (on_compact_block env now peer header ids coinbase node).1
  unfolding on_compact_block punish
  on_compact_block-HasRoom now peer header ids coinbase node room =
      let h = header_hash env.ext header in
      let start : PendingCompact = record {
        header = header;
        txs = some coinbase ∷ [];
        index_map = [];
        missing = [];
        created_at = now;
      } in
      let pc = reconstruct env (get_pending env node.mempool) ids start in
      let whole = finish_compact-HasRoom now pc (or_nothing (all_there pc.txs)) node room in
      let awaited = await_compact-HasRoom h pc node room in
      elim (Bool-cases (contains_key node.chain.blocks h)) [
        | inl known ↦ rw known room
        | inr new ↦ elim (Bool-cases (ltb (leading_zero_bits h) header.difficulty_target)) [
          | inl weak ↦ rw (new, weak) room
          | inr strong ↦ elim (Bool-cases (is_empty pc.missing)) [
            | inl all ↦ rw (new, strong, all) whole
            | inr some_missing ↦ rw (new, strong, some_missing) awaited
          ]
        ]
      ]

  finalize-HasRoom :
      (now : ℕ) (h : Hash256) (sent : List Block) (node : NodeState F S)
      → HasRoom node
      → HasRoom (finalize env now h (sent, node)).1
  unfolding finalize
  finalize-HasRoom now h sent node room =
      let taken = record node { pending_compacts = remove h node.pending_compacts } in
      let less : HasRoom taken = omega (arith, room, length-remove h node.pending_compacts) in
      elim (Option-cases (get node.pending_compacts h)) [
        | inl nothing ↦ rw (finalize, nothing) less
        | inr (pc, found) ↦ elim (Option-cases (all_there pc.txs)) [
          | inl holes ↦ rw (finalize, found, holes) less
          | inr (txs, whole) ↦
              let block : Block = record { header = pc.header; transactions = txs } in
              let same = accept_block-pending now block taken in
              elim (Result-cases (accept_block env now block taken).0) [
                | inl (hash, accepted) ↦ rw (finalize, found, whole, accepted, same) less
                | inr (e, refused) ↦ rw (finalize, found, whole, refused, same) less
              ]
        ]
      ]

  finalize_all-HasRoom :
      (now : ℕ) (hashes : List Hash256) (sent : List Block) (node : NodeState F S)
      → HasRoom node
      → HasRoom (finalize_all env now hashes (sent, node)).1
  unfolding finalize_all
  finalize_all-HasRoom now [] sent node room = room
  finalize_all-HasRoom now (h ∷ hashes) sent node room =
      let st = finalize env now h (sent, node) in
      finalize_all-HasRoom now hashes st.0 st.1 (finalize-HasRoom now h sent node room)

  take_transactions-HasRoom :
      (now : ℕ) (txs : List Transaction) (sent : List Block) (node : NodeState F S)
      → HasRoom node
      → HasRoom (take_transactions env now txs (sent, node)).1
  unfolding take_transactions take_transaction
  take_transactions-HasRoom now [] sent node room = room
  take_transactions-HasRoom now (tx ∷ txs) sent node room =
      let pool = (validate_and_add env node.chain tx node.mempool).1 in
      let txid = txid_v1 env.ext tx in
      let pending = feed_all txid tx node.pending_compacts in
      let fed = record node { mempool = pool; pending_compacts = pending } in
      let fed_room : HasRoom fed =
        omega (arith, room, length-feed_all txid tx node.pending_compacts) in
      let st = take_transaction env now tx (sent, node) in
      take_transactions-HasRoom now txs st.0 st.1
        (finalize_all-HasRoom now (completed pending) sent fed fed_room)

  pub on_transaction_batch-HasRoom :
      (now : ℕ) (txs : List Transaction) (node : NodeState F S)
      → HasRoom node
      → HasRoom (on_transaction_batch env now txs node).1
  unfolding on_transaction_batch
  on_transaction_batch-HasRoom now txs node room = take_transactions-HasRoom now txs [] node room
