-- ===== src/Network/Relay/Small.antt =====
-- What the node asks for when blocks and transactions come in is bounded.
use equiforge.Prelude.{
  ℕ, Bool-cases, List, [], ◌∷◌, Bytes, some, inl, inr, ltb, is_empty, Result-cases, All,
  bytes_instance,
}
use equiforge.Prelude.Maps.{contains_key}
use equiforge.Types.{Hash256, Transaction, BlockHeader, Block}
use equiforge.Types.Externals.{header_hash}
use equiforge.Types.Bits.{leading_zero_bits}
use equiforge.Types.Coinbase.{is_coinbase}
use equiforge.Chain.State.{Env}
use equiforge.Network.Mempool.{validate_and_add, get_pending}
use equiforge.Network.Compact.{PendingCompact, all_there, or_nothing}
use equiforge.Network.Node.{NodeState}
use equiforge.Network.Relay.{
  accept_block, on_new_block, on_new_transaction, finish_compact, await_compact, on_compact_block,
  on_get_transactions, find_all, is_orphan, is_harmless, reconstruct,
}
use equiforge.Network.Serve.Laws.{IsSmall, resync-IsSmall}

module _ {F S : Type 0} (env : Env F S) where
  pub on_new_block-IsSmall :
      (now : ℕ) (peer : Bytes) (block : Block) (node : NodeState F S)
      → All IsSmall (on_new_block env now peer block node).0.replies
  unfolding on_new_block
  on_new_block-IsSmall now peer block node =
      let node' = (accept_block env now block node).1 in
      elim (Result-cases (accept_block env now block node).0) [
        | inl (hash, accepted) ↦ rw (on_new_block, accepted) tt
        | inr (e, refused) ↦ elim (Bool-cases (is_orphan e)) [
          | inl orphan ↦ rw (on_new_block, refused, orphan) (resync-IsSmall env node', tt)
          | inr other ↦ elim (Bool-cases (is_harmless e)) [
            | inl fine ↦ rw (on_new_block, refused, other, fine) tt
            | inr bad ↦ rw (on_new_block, refused, other, bad) tt
          ]
        ]
      ]

  pub on_new_transaction-IsSmall :
      (now : ℕ) (peer : Bytes) (tx : Transaction) (node : NodeState F S)
      → All IsSmall (on_new_transaction env now peer tx node).0.replies
  unfolding on_new_transaction
  on_new_transaction-IsSmall now peer tx node = elim (Bool-cases (is_coinbase tx)) [
    | inl coinbase ↦ rw coinbase tt
    | inr plain ↦ elim (Result-cases (validate_and_add env node.chain tx node.mempool).0) [
      | inl (txid, taken) ↦ rw (on_new_transaction, plain, taken) tt
      | inr (e, refused) ↦ rw (on_new_transaction, plain, refused) tt
    ]
  ]

  finish_compact-IsSmall :
      (now : ℕ) (pc : PendingCompact) (txs : List Transaction) (node : NodeState F S)
      → All IsSmall (finish_compact env now pc txs node).0.replies
  unfolding finish_compact
  finish_compact-IsSmall now pc txs node =
      let block : Block = record { header = pc.header; transactions = txs } in
      let node' = (accept_block env now block node).1 in
      elim (Result-cases (accept_block env now block node).0) [
        | inl (hash, accepted) ↦ rw (finish_compact, accepted) tt
        | inr (e, refused) ↦ elim (Bool-cases (is_orphan e)) [
          | inl orphan ↦ rw (finish_compact, refused, orphan) (resync-IsSmall env node', tt)
          | inr other ↦ rw (finish_compact, refused, other) tt
        ]
      ]

  pub on_compact_block-IsSmall :
      (now : ℕ) (peer : Bytes) (header : BlockHeader) (ids : List Hash256) (coinbase : Transaction)
      (node : NodeState F S)
      → All IsSmall (on_compact_block env now peer header ids coinbase node).0.replies
  unfolding on_compact_block await_compact
  on_compact_block-IsSmall now peer header ids coinbase node =
      let h = header_hash env.ext header in
      let start : PendingCompact = record {
        header = header;
        txs = some coinbase ∷ [];
        index_map = [];
        missing = [];
        created_at = now;
      } in
      let pc = reconstruct env (get_pending env node.mempool) ids start in
      elim (Bool-cases (contains_key node.chain.blocks h)) [
        | inl known ↦ rw known tt
        | inr new ↦ elim (Bool-cases (ltb (leading_zero_bits h) header.difficulty_target)) [
          | inl weak ↦ rw (new, weak) tt
          | inr strong ↦ elim (Bool-cases (is_empty pc.missing)) [
            | inl all ↦
                rw (new, strong, all)
                  (finish_compact-IsSmall now pc (or_nothing (all_there pc.txs)) node)
            | inr some_missing ↦ rw (new, strong, some_missing) (tt, tt)
          ]
        ]
      ]

  pub on_get_transactions-IsSmall :
      (hashes : List Hash256) (node : NodeState F S)
      → All IsSmall (on_get_transactions env hashes node).0.replies
  unfolding on_get_transactions
  on_get_transactions-IsSmall hashes node =
      let found = find_all env hashes (get_pending env node.mempool) in
      elim (Bool-cases (is_empty found)) [
        | inl nothing ↦ rw nothing tt
        | inr something ↦ rw something (tt, tt)
      ]
