-- ===== src/Chain/Accept/Laws.antt =====
-- What `add_block` has checked when it accepts a block, and what it leaves alone when it does not.
use equiforge.Prelude.{
  ℕ, ◌≤◌, ◌<◌, ◌≡◌, ◌≢◌, refl, arith, true, false, some, ok, err, bytes_eq, bytes_eq_iff, ltb,
  ◌+u64◌, bytes_instance, ℕ_eq, Bool-cases, Result-cases, inl, inr,
}
use equiforge.Prelude.Maps.{get, insert, contains_key, get-insert, get-insert_self}
use equiforge.Types.{Hash256, BlockHeader, Block}
use equiforge.Types.Externals.{header_hash, block_size}
use equiforge.Params.Rewards.{max_block_size}
use equiforge.Types.Bits.{meets_difficulty}
use equiforge.Types.Merkle.{validate_merkle_root}
use equiforge.Chain.Errors.{BlockError}
use equiforge.Chain.Connect.{connect_block_utxos}
use equiforge.Chain.State.{Env, Chain}
use equiforge.Chain.Persist.{persist_block_only, persist_tip_extension}
use equiforge.Chain.BlockRules.{validate_block_transactions}
use equiforge.Chain.Accept.{
  begins_with_coinbase, expected_difficulty, check_block, commit_tip, new_work, index_block,
  extend_tip, extend_side, add_block, or_zero,
}

module _ {F S : Type 0} (env : Env F S) (now : ℕ) (block : Block) (c : Chain F S) where
  check_block_reads : (check_block env now block c).1 ≡ c
  unfolding check_block
  check_block_reads = ground arith

  -- What a block has shown once it has passed the first nine steps.
  pub record Checked (parent : BlockHeader) : Type 0 where
    pub unknown : contains_key c.blocks (header_hash env.ext block.header) ≡ false
    pub parent_known : get c.headers block.header.prev_hash ≡ some parent
    pub height : block.header.height ≡ parent.height +u64 1
    pub later : parent.timestamp < block.header.timestamp
    pub difficulty :
        block.header.difficulty_target ≡ expected_difficulty env c block.header.prev_hash
    pub work : meets_difficulty env.ext block.header ≡ true
    pub root : validate_merkle_root env.ext block ≡ true
    pub size : ltb max_block_size (block_size env.ext block) ≡ false
    pub coinbase : begins_with_coinbase block.transactions ≡ true

  check_block_sound :
      (parent : BlockHeader) → (check_block env now block c).0 ≡ ok parent → Checked parent
  unfolding check_block
  check_block_sound parent h = ground arith

  extend_tip-hash : (h hash : Hash256) → (extend_tip env h block c).0 ≡ ok hash → hash ≡ h
  unfolding extend_tip
  extend_tip-hash h hash p = ground arith

  extend_side-hash : (h hash : Hash256) → (extend_side env h block c).0 ≡ ok hash → hash ≡ h
  unfolding extend_side
  extend_side-hash h hash p = ground arith

  extend_tip_rejected :
      (h : Hash256) (e : BlockError)
      → (extend_tip env h block c).0 ≡ err e
      → (extend_tip env h block c).1 ≡ c
  unfolding extend_tip
  extend_tip_rejected h e p = ground arith

  passes :
      (hash : Hash256)
      → (add_block env now block c).0 ≡ ok hash
      → (parent : BlockHeader) × ((check_block env now block c).0 ≡ ok parent)
  unfolding add_block
  passes hash h = elim (Result-cases (check_block env now block c).0) [
    | inl (parent, passed) ↦ (parent, passed)
    | inr (e, failed) ↦ absurd (ground arith)
  ]

  on_tip_extends :
      (parent : BlockHeader)
      → (check_block env now block c).0 ≡ ok parent
      → bytes_eq block.header.prev_hash c.tip ≡ true
      → add_block env now block c ≡ extend_tip env (header_hash env.ext block.header) block c
  unfolding add_block
  on_tip_extends parent passed on_tip = rw (passed, check_block_reads, on_tip)

  aside_extends :
      (parent : BlockHeader)
      → (check_block env now block c).0 ≡ ok parent
      → bytes_eq block.header.prev_hash c.tip ≡ false
      → add_block env now block c ≡ extend_side env (header_hash env.ext block.header) block c
  unfolding add_block
  aside_extends parent passed aside = rw (passed, check_block_reads, aside)

  returned :
      (hash : Hash256)
      → (add_block env now block c).0 ≡ ok hash
      → hash ≡ header_hash env.ext block.header
  returned hash h =
      let (parent, passed) = passes hash h in
      elim (Bool-cases (bytes_eq block.header.prev_hash c.tip)) [
        | inl on_tip ↦
            extend_tip-hash (header_hash env.ext block.header) hash
              (rw (on_tip_extends parent passed on_tip) at h)
        | inr aside ↦
            extend_side-hash (header_hash env.ext block.header) hash
              (rw (aside_extends parent passed aside) at h)
      ]

  -- An accepted block has passed the checks, and its hash is returned, however it was connected.
  pub add_block_sound :
      (hash : Hash256)
      → (add_block env now block c).0 ≡ ok hash
      → (hash ≡ header_hash env.ext block.header) × ((parent : BlockHeader) × Checked parent)
  add_block_sound hash h =
      let (parent, passed) = passes hash h in
      (returned hash h, (parent, check_block_sound parent passed))

  -- A block on the tip that is rejected leaves the chain as it was.
  pub add_block_rejected :
      (e : BlockError)
      → bytes_eq block.header.prev_hash c.tip ≡ true
      → (add_block env now block c).0 ≡ err e
      → (add_block env now block c).1 ≡ c
  unfolding add_block
  add_block_rejected e on_tip h =
      ground (arith, check_block_reads, extend_tip_rejected (header_hash env.ext block.header) e)

  -- What a block that is put on the tip leaves behind.
  pub record Extended (hash : Hash256) (c' : Chain F S) : Type 0 where
    pub valid : validate_block_transactions env.ext c.utxo_set block ≡ ok tt
    pub tip : c'.tip ≡ hash
    pub height : c'.height ≡ block.header.height
    pub utxo_set : c'.utxo_set ≡ (connect_block_utxos env.ext c.utxo_set block).0
    pub undo : get c'.undo_cache hash ≡ some (connect_block_utxos env.ext c.utxo_set block).1
    pub header : get c'.headers hash ≡ some block.header
    pub stored : get c'.blocks hash ≡ some block
    pub work : get c'.cumulative_work hash ≡ some (new_work env block c)

  extend_tip-Extended :
      (h hash : Hash256)
      → (extend_tip env h block c).0 ≡ ok hash
      → Extended hash (extend_tip env h block c).1
  unfolding extend_tip commit_tip index_block persist_block_only persist_tip_extension
  extend_tip-Extended h hash p =
      let same = extend_tip-hash h hash p in
      let work : ℕ = new_work env block c in
      let undo = (connect_block_utxos env.ext c.utxo_set block).1 in
      elim (Result-cases (validate_block_transactions env.ext c.utxo_set block)) [
        | inl (_, valid) ↦
            rw (same, valid)
              (record {
                valid = valid;
                tip = ground arith;
                height = ground arith;
                utxo_set = ground arith;
                undo = ground (arith, get-insert_self h undo c.undo_cache);
                header = ground (arith, get-insert_self h block.header c.headers);
                stored = ground (arith, get-insert_self h block c.blocks);
                work = ground (arith, get-insert_self h work c.cumulative_work);
              })
        | inr (e, invalid) ↦ absurd (ground arith)
      ]

  -- A block on the tip that is accepted becomes the tip: its transactions were valid against the
  -- UTXO set, which is now the set with the block connected, and the block, its header, its work
  -- and its undo record are found under its hash.
  pub add_block_extends :
      (hash : Hash256)
      → bytes_eq block.header.prev_hash c.tip ≡ true
      → (add_block env now block c).0 ≡ ok hash
      → Extended hash (add_block env now block c).1
  add_block_extends hash on_tip h =
      let (parent, passed) = passes hash h in
      rw (on_tip_extends parent passed on_tip) (
        extend_tip-Extended (header_hash env.ext block.header) hash
          (rw (on_tip_extends parent passed on_tip) at h))

  -- What a block on a side chain leaves behind, when it does not win.
  pub record StoredAside (hash : Hash256) (c' : Chain F S) : Type 0 where
    pub tip : c'.tip ≡ c.tip
    pub height : c'.height ≡ c.height
    pub utxo_set : c'.utxo_set ≡ c.utxo_set
    pub header : get c'.headers hash ≡ some block.header
    pub stored : get c'.blocks hash ≡ some block
    pub work : get c'.cumulative_work hash ≡ some (new_work env block c)

  extend_side-StoredAside :
      (h hash : Hash256)
      → h ≢ c.tip
      → new_work env block c ≤ or_zero (get c.cumulative_work c.tip)
      → (extend_side env h block c).0 ≡ ok hash
      → StoredAside hash (extend_side env h block c).1
  unfolding extend_side index_block persist_block_only
  extend_side-StoredAside h hash new less p =
      let work : ℕ = new_work env block c in
      let same = extend_side-hash h hash p in
      let old : get (insert h work c.cumulative_work) c.tip ≡ get c.cumulative_work c.tip =
        ground (arith, get-insert h c.tip work c.cumulative_work, bytes_eq_iff h c.tip) in
      let loses : ltb (or_zero (get (insert h work c.cumulative_work) c.tip)) work ≡ false =
        rw old (ground arith) in
      rw (same, loses)
        (record {
          tip = refl;
          height = refl;
          utxo_set = refl;
          header = get-insert_self h block.header c.headers;
          stored = get-insert_self h block c.blocks;
          work = get-insert_self h work c.cumulative_work;
        })

  -- A block on a side chain with no more work than the tip is stored, and the active chain stays.
  pub add_block_side :
      (hash : Hash256)
      → bytes_eq block.header.prev_hash c.tip ≡ false
      → header_hash env.ext block.header ≢ c.tip
      → new_work env block c ≤ or_zero (get c.cumulative_work c.tip)
      → (add_block env now block c).0 ≡ ok hash
      → StoredAside hash (add_block env now block c).1
  add_block_side hash side new less h =
      let (parent, passed) = passes hash h in
      rw (aside_extends parent passed side) (
        extend_side-StoredAside (header_hash env.ext block.header) hash new less
          (rw (aside_extends parent passed side) at h))
