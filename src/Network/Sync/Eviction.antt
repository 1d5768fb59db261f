-- ===== src/Network/Sync/Eviction.antt =====
-- The mempool after blocks that came together.
use equiforge.Prelude.{
  ℕ, ◌<◌, ◌≡◌, arith, Bool, true, Bool-cases, inl, inr, List, [], ◌∷◌, Bytes, All, ltb,
  bytes_instance,
}
use equiforge.Prelude.Maps.{Map, remove}
use equiforge.Types.{Hash256, Block, Transaction, OutPoint}
use equiforge.Types.Externals.{tx_hash}
use equiforge.Types.Coinbase.{is_coinbase}
use equiforge.Chain.State.{Env}
use equiforge.Network.Mempool.{
  Mempool, MempoolEntry, remove_confirmed, remove_hashes, keep_unspent, spent_outpoints, spends_any,
}
use equiforge.Network.Mempool.Laws.{SpendNone, remove_confirmed-SpendNone}
use equiforge.Network.Node.{NodeState}
use equiforge.Network.Sync.{chunks, add_chunks, remove_all_confirmed, take_blocks}
use equiforge.Network.Sync.Laws.{raise_to_last_keeps}

remove-keeps :
    {F : Type 0} (ops : List OutPoint) (id : Hash256) (m : Map Hash256 (MempoolEntry F))
    → SpendNone ops m
    → SpendNone ops (remove id m)
unfolding remove
remove-keeps ops id [] h = tt
remove-keeps ops id ((i, entry) ∷ m) h = ground (arith, remove-keeps ops id m h.1)

module _ {F S : Type 0} (env : Env F S) where
  keep_unspent-keeps :
      (ops others : List OutPoint) (m : Map Hash256 (MempoolEntry F))
      → SpendNone ops m
      → SpendNone ops (keep_unspent others m)
  unfolding keep_unspent
  keep_unspent-keeps ops others [] h = tt
  keep_unspent-keeps ops others ((id, entry) ∷ m) h =
      elim (Bool-cases (spends_any others entry.tx.inputs)) [
        | inl conflict ↦ rw conflict (keep_unspent-keeps ops others m h.1)
        | inr free ↦ rw free (h.0, keep_unspent-keeps ops others m h.1)
      ]

  remove_hashes-keeps :
      (ops : List OutPoint) (txs : List Transaction) (m : Map Hash256 (MempoolEntry F))
      → SpendNone ops m
      → SpendNone ops (remove_hashes env txs m)
  unfolding remove_hashes
  remove_hashes-keeps ops [] m h = h
  remove_hashes-keeps ops (tx ∷ txs) m h = elim (Bool-cases (is_coinbase tx)) [
    | inl coinbase ↦ rw coinbase (remove_hashes-keeps ops txs m h)
    | inr plain ↦
        let id = tx_hash env.ext tx in
        rw plain (remove_hashes-keeps ops txs (remove id m) (remove-keeps ops id m h))
  ]

  remove_all_confirmed-keeps :
      (ops : List OutPoint) (blocks : List Block) (pool : Mempool F)
      → SpendNone ops pool.entries
      → SpendNone ops (remove_all_confirmed env blocks pool).entries
  unfolding remove_all_confirmed remove_confirmed
  remove_all_confirmed-keeps ops [] pool h = h
  remove_all_confirmed-keeps ops (block ∷ blocks) pool h =
      remove_all_confirmed-keeps ops blocks (remove_confirmed env block pool) (
        keep_unspent-keeps ops (spent_outpoints block.transactions)
          (remove_hashes env block.transactions pool.entries)
          (remove_hashes-keeps ops block.transactions pool.entries h))

  -- No transaction of the mempool spends what the block spends.
  abbrev pub Forgets : Mempool F → Block → Type 0
  Forgets pool block = SpendNone (spent_outpoints block.transactions) pool.entries

  remove_all_confirmed-Forgets :
      (blocks : List Block) (pool : Mempool F)
      → All (Forgets (remove_all_confirmed env blocks pool)) blocks
  unfolding remove_all_confirmed
  remove_all_confirmed-Forgets [] pool = tt
  remove_all_confirmed-Forgets (block ∷ blocks) pool =
      let pool' = remove_confirmed env block pool in
      (
        remove_all_confirmed-keeps (spent_outpoints block.transactions) blocks pool'
            (remove_confirmed-SpendNone env block pool),
        remove_all_confirmed-Forgets blocks pool',
      )

  -- Once one of the blocks that came together is accepted, no transaction of the mempool spends an
  -- output that any of them spends, be it accepted or rejected.
  pub take_blocks-Forgets :
      (batch : Bool) (now : ℕ) (peer : Bytes) (blocks : List Block) (node : NodeState F S)
      → 0 < (add_chunks env batch now (chunks 25 blocks) (0, node.chain)).0
      → All (Forgets (take_blocks env batch now peer blocks node).mempool) blocks
  unfolding take_blocks
  take_blocks-Forgets batch now peer blocks node accepted =
      let (n, chain) = add_chunks env batch now (chunks 25 blocks) (0, node.chain) in
      let some_in : ltb 0 n ≡ true = ground arith in
      let pool = remove_all_confirmed env blocks node.mempool in
      let kept =
        (raise_to_last_keeps env peer blocks (record node { chain = chain; mempool = pool })).1 in
      rw (take_blocks, some_in, kept) (remove_all_confirmed-Forgets blocks node.mempool)
