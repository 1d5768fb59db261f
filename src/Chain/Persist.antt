-- ===== src/Chain/Persist.antt =====
-- core/chain.rs: what the chain writes to its storage, if it has one.
use equiforge.Prelude.{ℕ, zero, suc, ◌+◌, Bool, List, [], ◌∷◌, none, some, if◌then◌else◌}
use equiforge.Prelude.Maps.{Map, get}
use equiforge.Types.{Hash256, OutPoint, Block, outpoint_instance}
use equiforge.Chain.Utxo.{UtxoEntry, UtxoSet, BlockUndo}
use equiforge.Chain.Stored.{to_stored}
use equiforge.Chain.State.{Env, Chain}
use equiforge.Prelude.{bytes_instance, ℕ_eq}

module _ {F S : Type 0} (env : Env F S) where
  open env use {db}

  -- `if let Some(ref storage) = self.storage { ... }`
  abbrev pub with_storage : (S → S) → Chain F S → Chain F S
  with_storage write c = record c {
    storage = elim c.storage [ none ↦ none | some s ↦ some (write s) ];
  }

  unfoldable pub remove_utxos : List OutPoint → S → S
  remove_utxos [] s = s
  remove_utxos (op ∷ ops) s = remove_utxos ops (db.remove_utxo op s)

  unfoldable pub remove_spent : List (OutPoint × UtxoEntry) → S → S
  remove_spent [] s = s
  remove_spent ((op, _) ∷ spent) s = remove_spent spent (db.remove_utxo op s)

  unfoldable pub put_utxos : List (OutPoint × UtxoEntry) → S → S
  put_utxos [] s = s
  put_utxos ((op, entry) ∷ utxos) s = put_utxos utxos (db.put_utxo op entry s)

  -- `if let Some(entry) = self.utxo_set.get(op) { put_utxo }`, for each created outpoint.
  unfoldable pub put_created : UtxoSet → List OutPoint → S → S
  put_created set [] s = s
  put_created set (op ∷ ops) s =
      put_created set ops (elim (get set op) [ none ↦ s | some entry ↦ db.put_utxo op entry s ])

  unfoldable pub persist_block_only : Hash256 → Block → Chain F S → Chain F S
  persist_block_only block_hash block =
      with_storage λ s. db.put_header block_hash block.header (db.put_block block_hash block s)

  -- The tip, the height, the timestamps and the difficulty.
  abbrev pub put_metadata : Chain F S → S → S
  put_metadata c s =
      db.put_fractional_difficulty c.fractional_difficulty
        (db.put_timestamps c.recent_timestamps (db.put_height c.height (db.put_tip c.tip s)))

  unfoldable pub persist_tip_extension : Hash256 → Block → BlockUndo → Chain F S → Chain F S
  unfolding remove_spent put_created
  persist_tip_extension block_hash block undo c =
      let written =
        with_storage
          (λ s.
            let s₁ = db.put_header block_hash block.header (db.put_block block_hash block s) in
            let s₂ = put_metadata c (db.put_height_index block.header.height block_hash s₁) in
            let s₃ = db.put_undo block_hash (to_stored undo) s₂ in
            db.flush (put_created c.utxo_set undo.created (remove_spent undo.spent s₃)))
          c in
      if c.batch_mode then c else written

  -- `for h in 0..=self.height`, from `h` on, with `left` heights left.
  unfoldable pub put_heights : Map ℕ Hash256 → ℕ → ℕ → S → S
  put_heights index zero h s = s
  put_heights index (suc left) h s =
      put_heights index left (suc h)
        (elim (get index h) [ none ↦ s | some hash ↦ db.put_height_index h hash s ])

  unfoldable pub persist_reorg_height_index : Chain F S → Chain F S
  unfolding put_heights
  persist_reorg_height_index c =
      let written =
        with_storage
          (λ s.
            let s₁ = put_heights c.height_index (c.height + 1) 0 (db.clear_height_index s) in
            db.flush (put_metadata c s₁))
          c in
      if c.batch_mode then c else written

  -- What a reorganisation writes for a block that it disconnects, and for one that it connects.
  unfoldable pub persist_disconnect : BlockUndo → Chain F S → Chain F S
  unfolding remove_utxos put_utxos
  persist_disconnect undo c =
      let written =
        with_storage (λ s. db.flush (put_utxos undo.spent (remove_utxos undo.created s))) c in
      if c.batch_mode then c else written

  unfoldable pub persist_connect : Hash256 → BlockUndo → Chain F S → Chain F S
  unfolding remove_spent put_created
  persist_connect block_hash undo c =
      let written =
        with_storage
          (λ s. db.flush (
            put_created c.utxo_set undo.created
              (remove_spent undo.spent (db.put_undo block_hash (to_stored undo) s))))
          c in
      if c.batch_mode then c else written

  unfoldable pub set_batch_mode : Bool → Chain F S → Chain F S
  set_batch_mode enabled c = record c { batch_mode = enabled }

  put_blocks : Map Hash256 Block → S → S
  put_blocks [] s = s
  put_blocks ((hash, block) ∷ blocks) s =
      put_blocks blocks (db.put_header hash block.header (db.put_block hash block s))

  put_index : Map ℕ Hash256 → S → S
  put_index [] s = s
  put_index ((h, hash) ∷ index) s = put_index index (db.put_height_index h hash s)

  unfoldable pub flush_batch : Chain F S → Chain F S
  unfolding put_blocks put_index put_utxos
  flush_batch c =
      with_storage
        (λ s. db.flush (
          put_utxos c.utxo_set (put_metadata c (put_index c.height_index (put_blocks c.blocks s)))))
        c

  -- The writes are taken to succeed: the first that fails would end the method.
  unfoldable pub persist_genesis : Block → Chain F S → S → S
  unfolding put_utxos
  persist_genesis genesis c s =
      let s₁ = db.put_header c.tip genesis.header (db.put_block c.tip genesis s) in
      let s₂ = db.put_height 0 (db.put_tip c.tip (db.put_height_index 0 c.tip s₁)) in
      let s₃ = db.put_timestamps c.recent_timestamps s₂ in
      let s₄ = db.put_fractional_difficulty c.fractional_difficulty s₃ in
      db.flush (put_utxos c.utxo_set s₄)
