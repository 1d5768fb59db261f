-- ===== src/Network/Locator.antt =====
-- network/mod.rs: `build_locator`.
use equiforge.Prelude.{
  ℕ, zero, suc, ◌+◌, ◌*◌, ◌-◌, ◌≤◌, ◌≡◌, ◌≢◌, arith, Bool, true, false, not, ◌&&◌, List, [], ◌∷◌,
  ◌++◌, none, some, nat_eq, ltb, bytes_eq, bytes_eq_iff, if◌then◌else◌, min, length, length-append,
}
use equiforge.Types.{Hash256, null_hash}
use equiforge.Types.Externals.{header_hash}
use equiforge.Chain.State.{Env, Chain}
use equiforge.Chain.Headers.{block_at_height, genesis_hash}

-- `locator.last().copied() == Some(g)`
unfoldable pub ends_with : Hash256 → List Hash256 → Bool
ends_with g [] = false
ends_with g (h ∷ []) = bytes_eq h g
ends_with g (h ∷ k ∷ hs) = ends_with g (k ∷ hs)

module _ {F S : Type 0} (env : Env F S) where
  -- The hash at a height, and the tip's where no block is there.
  unfoldable pub locator_hash : Chain F S → ℕ → Hash256
  locator_hash chain h = elim (block_at_height env chain h) [
    | none ↦ chain.tip
    | some b ↦ header_hash env.ext b.header
  ]

  -- The loop, with `left` hashes to go and `pushed` behind it.
  unfoldable pub locate : Chain F S → ℕ → ℕ → ℕ → ℕ → List Hash256
  locate chain zero pushed h step = []
  locate chain (suc left) pushed h step =
      let step' = if ltb 8 (suc pushed) then min (step * 2) 1024 else step in
      let further = locate chain left (suc pushed) (h - step) step' in
      locator_hash chain h ∷ (if nat_eq h 0 then [] else further)

  unfoldable pub build_locator : Chain F S → ℕ → List Hash256
  unfolding locate ends_with
  build_locator chain max =
      let locator = locate chain max 0 chain.height 1 in
      let g = genesis_hash env chain in
      if not (bytes_eq g null_hash) && not (ends_with g locator) then locator ++ g ∷ [] else locator

  length-locate :
      (chain : Chain F S) (left pushed h step : ℕ) → length (locate chain left pushed h step) ≤ left
  unfolding locate
  length-locate chain zero pushed h step = omega arith
  length-locate chain (suc left) pushed h step =
      let step' = if ltb 8 (suc pushed) then min (step * 2) 1024 else step in
      ground (arith, length-locate chain left (suc pushed) (h - step) step')

  -- A locator has one hash more than asked for at most.
  pub length-build_locator :
      (chain : Chain F S) (max : ℕ) → length (build_locator chain max) ≤ max + 1
  unfolding build_locator
  length-build_locator chain max =
      let locator = locate chain max 0 chain.height 1 in
      ground (
        arith,
        length-locate chain max 0 chain.height 1,
        length-append locator (genesis_hash env chain ∷ []),
      )

ends_with-append : (g : Hash256) (hs : List Hash256) → ends_with g (hs ++ g ∷ []) ≡ true
unfolding ends_with
ends_with-append g [] = ground (arith, bytes_eq_iff g g)
ends_with-append g (h ∷ []) = ground (arith, bytes_eq_iff g g)
ends_with-append g (h ∷ k ∷ hs) = ends_with-append g (k ∷ hs)

module _ {F S : Type 0} (env : Env F S) where
  -- Where the chain has a genesis block, the locator ends with its hash, so that two nodes of one
  -- network always have a block in common.
  pub build_locator_ends :
      (chain : Chain F S) (max : ℕ)
      → genesis_hash env chain ≢ null_hash
      → ends_with (genesis_hash env chain) (build_locator env chain max) ≡ true
  unfolding build_locator
  build_locator_ends chain max known =
      let g = genesis_hash env chain in
      let locator = locate env chain max 0 chain.height 1 in
      ground (arith, ends_with-append g locator, bytes_eq_iff g null_hash)
