-- ===== src/Network/Serve/Laws.antt =====
-- What comes back is bounded, whatever is asked for.
use equiforge.Prelude.{
  ℕ, zero, suc, ◌≤◌, arith, List, [], ◌∷◌, Option-cases, inl, inr, length, take, length-take, All,
  ◌-◌, min, ◌+u64◌, bytes_instance, ℕ_eq,
}
use equiforge.Prelude.Maps.{get}
use equiforge.Types.{Hash256}
use equiforge.Chain.State.{Env, Chain}
use equiforge.Chain.Headers.{block_at_height, collect_headers, headers_in_range, blocks_by_hashes}
use equiforge.Network.Locator.{length-build_locator}
use equiforge.Network.Message.{
  NetMessage, headers, blocks, block_data, get_block_data, get_headers_from,
}
use equiforge.Network.Node.{NodeState}
use equiforge.Network.Relay.{resync}
use equiforge.Network.Serve.{
  start_after, answer_headers, answer_headers_from, collect_blocks, answer_blocks, answer_block,
  answer_block_data, unless_empty,
}

-- At most 2000 headers, 500 blocks for heights, 100 blocks for hashes, 100 hashes of blocks, and
-- 33 hashes in a locator.
abbrev pub IsSmall : NetMessage → Type 0
IsSmall (headers hs) = length hs ≤ 2000
IsSmall (blocks bs) = length bs ≤ 500
IsSmall (block_data bs) = length bs ≤ 100
IsSmall (get_block_data hashes) = length hashes ≤ 100
IsSmall (get_headers_from locator count) = length locator ≤ 33
IsSmall _ = Unit

pub unless_empty-IsSmall :
    {A : Type 0} (found : List A) (m : NetMessage) → IsSmall m → All IsSmall (unless_empty found m)
unless_empty-IsSmall [] m small = tt
unless_empty-IsSmall (x ∷ xs) m small = (small, tt)

module _ {F S : Type 0} (env : Env F S) where
  length-collect_headers :
      (c : Chain F S) (left h : ℕ) → length (collect_headers env c left h) ≤ left
  unfolding collect_headers
  length-collect_headers c zero h = omega arith
  length-collect_headers c (suc left) h = ground (arith, length-collect_headers c left (suc h))

  length-collect_blocks : (c : Chain F S) (left h : ℕ) → length (collect_blocks env c left h) ≤ left
  unfolding collect_blocks
  length-collect_blocks c zero h = omega arith
  length-collect_blocks c (suc left) h = ground (arith, length-collect_blocks c left (suc h))

  length-blocks_by_hashes :
      (c : Chain F S) (hashes : List Hash256)
      → length (blocks_by_hashes env c hashes) ≤ length hashes
  unfolding blocks_by_hashes
  length-blocks_by_hashes c [] = omega arith
  length-blocks_by_hashes c (h ∷ hashes) = ground (arith, length-blocks_by_hashes c hashes)

  length-headers_in_range :
      (c : Chain F S) (start count : ℕ) → length (headers_in_range env c start count) ≤ count
  unfolding headers_in_range
  length-headers_in_range c start count =
      let end = min (start +u64 count) (c.height +u64 1) in
      omega (arith, length-collect_headers c (end - start) start)

  pub answer_headers-IsSmall :
      (start count : ℕ) (node : NodeState F S) → All IsSmall (answer_headers env start count node)
  unfolding answer_headers
  answer_headers-IsSmall start count node =
      let found = headers_in_range env node.chain start (min count 2000) in
      unless_empty-IsSmall found (headers found)
        (omega (arith, length-headers_in_range node.chain start (min count 2000)))

  pub answer_headers_from-IsSmall :
      (locator : List Hash256) (count : ℕ) (node : NodeState F S)
      → All IsSmall (answer_headers_from env locator count node)
  unfolding answer_headers_from
  answer_headers_from-IsSmall locator count node =
      let start = start_after env node.chain locator in
      let found = headers_in_range env node.chain start (min count 2000) in
      unless_empty-IsSmall found (headers found)
        (omega (arith, length-headers_in_range node.chain start (min count 2000)))

  pub answer_blocks-IsSmall :
      (start count : ℕ) (node : NodeState F S) → All IsSmall (answer_blocks env start count node)
  unfolding answer_blocks
  answer_blocks-IsSmall start count node =
      let end = min (start +u64 min count 500) (node.chain.height +u64 1) in
      let found = collect_blocks env node.chain (end - start) start in
      unless_empty-IsSmall found (blocks found)
        (omega (arith, length-collect_blocks node.chain (end - start) start))

  pub answer_block-IsSmall :
      (hash : Hash256) (node : NodeState F S) → All IsSmall (answer_block env hash node)
  unfolding answer_block
  answer_block-IsSmall hash node = elim (Option-cases (get node.chain.headers hash)) [
    | inl unknown ↦ rw (answer_block, unknown) tt
    | inr (h, known) ↦ elim (Option-cases (block_at_height env node.chain h.height)) [
      | inl missing ↦ rw (answer_block, known, missing) tt
      | inr (block, found) ↦ rw (answer_block, known, found) (tt, tt)
    ]
  ]

  pub answer_block_data-IsSmall :
      (hashes : List Hash256) (node : NodeState F S)
      → All IsSmall (answer_block_data env hashes node)
  unfolding answer_block_data
  answer_block_data-IsSmall hashes node =
      let found = blocks_by_hashes env node.chain (take 100 hashes) in
      unless_empty-IsSmall found (block_data found) (
        omega (arith, length-blocks_by_hashes node.chain (take 100 hashes), length-take 100 hashes))

  pub resync-IsSmall : (node : NodeState F S) → IsSmall (resync env node)
  resync-IsSmall node = omega (arith, length-build_locator env node.chain 32)
