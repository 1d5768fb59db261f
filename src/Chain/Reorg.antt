-- ===== src/Chain/Reorg.antt =====
-- core/chain.rs: `chain_from_tip` and `reorg_to`.
mod Walk
pub mod Laws
use equiforge.Prelude.{
  ℕ, zero, suc, ◌+◌, Bool, true, false, List, [], ◌∷◌, ◌++◌, map, Option, none, some, Result, ok,
  err, bytes_eq, ltb, if◌then◌else◌, rest, keep_last, ◌+u64◌, bytes_instance, ℕ_eq,
}
use mathlib.Core.List.{reverse}
use equiforge.Prelude.Maps.{Map, get, insert, remove}
use equiforge.Params.Rewards.{block_reward, initial_difficulty}
use equiforge.Types.{Hash256, BlockHeader, Block, Transaction}
use equiforge.Chain.Utxo.{UtxoSet, BlockUndo}
use equiforge.Chain.Errors.{
  BlockError, orphan_block, invalid_transaction, storage_error, reorg_aborted,
}
use equiforge.Chain.Connect.{connect_block_utxos, disconnect_block_utxos}
use equiforge.Chain.Difficulty.{replay}
use equiforge.Chain.Stored.{StoredBlockUndo, from_stored}
use equiforge.Chain.State.{Env, Chain}
use equiforge.Chain.Action.{Action, pure, raise, check, modify, ◌>>=◌, ◌>>◌}
use equiforge.Chain.Persist.{persist_disconnect, persist_connect, persist_reorg_height_index}
use equiforge.Chain.BlockRules.{validate_block_transactions}
unfoldable pub use Walk.*

abbrev pub max_timestamps : ℕ
max_timestamps = 70

-- `Option::ok_or`
abbrev pub ok_or : {A : Type 0} → Option A → BlockError → Result BlockError A
ok_or none e = err e
ok_or (some a) e = ok a

module _ {F S : Type 0} (env : Env F S) where
  open env use {ext, float, db}

  stored_undo : Result (Unit {0}) (Option StoredBlockUndo) → Result BlockError BlockUndo
  stored_undo (err _) = err (invalid_transaction storage_error)
  stored_undo (ok none) = err orphan_block
  stored_undo (ok (some stored)) = ok (from_stored stored)

  -- The undo record of a block: from the cache, else from storage.
  unfoldable pub find_undo : Hash256 → Chain F S → Result BlockError BlockUndo
  unfolding stored_undo
  find_undo bh c = elim (get c.undo_cache bh) [
    | some undo ↦ ok undo
    | none ↦ elim c.storage [ none ↦ err orphan_block | some s ↦ stored_undo (db.get_undo bh s) ]
  ]

  unfoldable pub disconnect_block : Hash256 → Action (Chain F S) (Unit {0})
  unfolding find_undo
  disconnect_block bh = do
    undo ← check (find_undo bh)
    modify (λ c. record c { utxo_set = disconnect_block_utxos undo c.utxo_set })
    modify (persist_disconnect env undo)

  unfoldable pub disconnect_all : List Hash256 → Action (Chain F S) (Unit {0})
  unfolding disconnect_block
  disconnect_all [] = pure tt
  disconnect_all (bh ∷ hashes) = do disconnect_block bh; disconnect_all hashes

  -- The blocks that this reorganisation has connected are undone, the last first.
  unfoldable pub roll_back : List (Hash256 × BlockUndo) → Chain F S → Chain F S
  roll_back [] c = c
  roll_back ((bh, undo) ∷ connected) c = roll_back connected (record c {
    utxo_set = disconnect_block_utxos undo c.utxo_set;
    undo_cache = remove bh c.undo_cache;
  })

  -- The old blocks are connected again; the undo records of that are dropped.
  unfoldable pub reconnect_old : List Hash256 → Chain F S → Chain F S
  reconnect_old [] c = c
  reconnect_old (bh ∷ hashes) c = reconnect_old hashes (elim (get c.blocks bh) [
    | none ↦ c
    | some block ↦ record c { utxo_set = (connect_block_utxos ext c.utxo_set block).0 }
  ])

  unfoldable pub forget_block : Hash256 → Chain F S → Chain F S
  forget_block bh c = record c {
    blocks = remove bh c.blocks;
    headers = remove bh c.headers;
    cumulative_work = remove bh c.cumulative_work;
  }

  -- What is done when a block of the new branch is found to be invalid. `connected` has the last
  -- block first; `disconnected` runs from the old tip down.
  unfoldable pub abort_reorg :
      List (Hash256 × BlockUndo) → List Hash256 → Hash256 → Chain F S → Chain F S
  unfolding roll_back reconnect_old forget_block
  abort_reorg connected disconnected bh c =
      forget_block bh (reconnect_old (reverse disconnected) (roll_back connected c))

  unfoldable pub connect_block : Hash256 → Block → Chain F S → BlockUndo × Chain F S
  connect_block bh block c =
      let (set, undo) = connect_block_utxos ext c.utxo_set block in
      let connected = record c { utxo_set = set; undo_cache = insert bh undo c.undo_cache } in
      (undo, persist_connect env bh undo connected)

  -- The loop over the blocks to connect.
  unfoldable pub connect_all :
      List (Hash256 × BlockUndo) → List Hash256 → List Hash256 → Action (Chain F S) (Unit {0})
  unfolding abort_reorg connect_block
  connect_all connected disconnected [] c = (ok tt, c)
  connect_all connected disconnected (bh ∷ hashes) c = elim (get c.blocks bh) [
    | none ↦ (err orphan_block, c)
    | some block ↦ elim (validate_block_transactions ext c.utxo_set block) [
      | err e ↦ (
        err (invalid_transaction (reorg_aborted block.header.height e)),
        abort_reorg connected disconnected bh c,
      )
      | ok _ ↦
          let (undo, c') = connect_block bh block c in
          connect_all ((bh, undo) ∷ connected) disconnected hashes c'
    ]
  ]

  -- The height index along the hashes, oldest first.
  unfoldable pub index_heights : List Hash256 → Action (Chain F S) (Unit {0})
  index_heights [] = pure tt
  index_heights (hash ∷ hashes) = do
    header ← check (λ c. ok_or (get c.headers hash) orphan_block)
    modify (λ c. record c { height_index = insert header.height hash c.height_index })
    index_heights hashes

  unfoldable pub push_timestamps : List Hash256 → Action (Chain F S) (Unit {0})
  push_timestamps [] = pure tt
  push_timestamps (hash ∷ hashes) = do
    header ← check (λ c. ok_or (get c.headers hash) orphan_block)
    modify (λ c. record c { recent_timestamps = c.recent_timestamps ++ header.timestamp ∷ [] })
    push_timestamps hashes

  unfoldable pub reorg_to : Hash256 → Action (Chain F S) (Unit {0})
  unfolding disconnect_all connect_all index_heights push_timestamps
  reorg_to new_tip = do
    old_chain ← check (λ c. ok (chain_from_tip c.headers c.tip))
    new_chain ← check (λ c. ok (chain_from_tip c.headers new_tip))
    fork_point ← check (λ c. ok_or (find_in old_chain new_chain) orphan_block)
    let disconnect = until fork_point old_chain
    let connect = reverse (until fork_point new_chain)
    new_header ← check (λ c. ok_or (get c.headers new_tip) orphan_block)
    disconnect_all disconnect
    connect_all [] disconnect connect
    full_chain ← check (λ c. ok (reverse (chain_from_tip c.headers new_tip)))
    modify (λ c. record c { height_index = [] })
    index_heights full_chain
    modify (λ c. record c { recent_timestamps = [] })
    push_timestamps full_chain
    modify (λ c. record c { recent_timestamps = keep_last max_timestamps c.recent_timestamps })
    modify (λ c. record c {
      fractional_difficulty = replay float (float.of_ℕ initial_difficulty) c.recent_timestamps;
    })
    modify (λ c. record c { tip = new_tip; height = new_header.height })
    modify (persist_reorg_height_index env)
