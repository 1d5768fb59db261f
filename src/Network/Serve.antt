-- ===== src/Network/Serve.antt =====
-- network/mod.rs: the arms of `handle_message` that answer from what the node has, and change
-- nothing.
pub mod Laws
use equiforge.Prelude.{
  ℕ, zero, suc, ◌+◌, ◌-◌, List, [], ◌∷◌, Bytes, Option, none, some, is_empty, if◌then◌else◌, min,
  take, ◌+u64◌, saturating_add, bytes_instance,
}
use equiforge.Prelude.Maps.{Map, get}
use equiforge.Types.{Hash256, BlockHeader, Block}
use equiforge.Chain.State.{Env, Chain}
use equiforge.Chain.Headers.{block_at_height, headers_in_range, blocks_by_hashes}
use equiforge.Network.Message.{NetMessage, headers, blocks, new_block, peers, pong, block_data}
use equiforge.Network.Node.{NodeState, PeerInfo}

-- `if !found.is_empty() { write_message(...) }`
abbrev pub unless_empty : {A : Type 0} → List A → NetMessage → List NetMessage
unless_empty found message = if is_empty found then [] else message ∷ []

-- `peers.values().map(|p| p.listen_address.clone())`
unfoldable pub listen_addresses : Map Bytes PeerInfo → List Bytes
listen_addresses [] = []
listen_addresses ((_, p) ∷ ps) = p.listen_address ∷ listen_addresses ps

module _ {F S : Type 0} (env : Env F S) where
  -- One above the first header of the locator that is known.
  unfoldable pub start_after : Chain F S → List Hash256 → ℕ
  start_after chain [] = 0
  start_after chain (h ∷ locator) = elim (get chain.headers h) [
    | none ↦ start_after chain locator
    | some hdr ↦ saturating_add hdr.height 1
  ]

  -- `GetHeaders`
  unfoldable pub answer_headers : ℕ → ℕ → NodeState F S → List NetMessage
  answer_headers start_height count node =
      let found = headers_in_range env node.chain start_height (min count 2000) in
      unless_empty found (headers found)

  -- `GetHeadersFrom`
  unfoldable pub answer_headers_from : List Hash256 → ℕ → NodeState F S → List NetMessage
  unfolding start_after
  answer_headers_from locator count node =
      let start_height = start_after node.chain locator in
      let found = headers_in_range env node.chain start_height (min count 2000) in
      unless_empty found (headers found)

  -- `for h in start_height..end`, from `h` on, with `left` heights left.
  unfoldable pub collect_blocks : Chain F S → ℕ → ℕ → List Block
  collect_blocks chain zero h = []
  collect_blocks chain (suc left) h =
      let further = collect_blocks chain left (suc h) in
      elim (block_at_height env chain h) [ none ↦ further | some block ↦ block ∷ further ]

  -- `GetBlocks`
  unfoldable pub answer_blocks : ℕ → ℕ → NodeState F S → List NetMessage
  unfolding collect_blocks
  answer_blocks start_height count node =
      let end = min (start_height +u64 min count 500) (node.chain.height +u64 1) in
      let found = collect_blocks node.chain (end - start_height) start_height in
      unless_empty found (blocks found)

  -- `GetBlock`
  unfoldable pub answer_block : Hash256 → NodeState F S → List NetMessage
  answer_block hash node = elim (get node.chain.headers hash) [
    | none ↦ []
    | some h ↦ elim (block_at_height env node.chain h.height) [
      | none ↦ []
      | some block ↦ new_block block ∷ []
    ]
  ]

  -- `GetPeers`
  unfoldable pub answer_peers : NodeState F S → List NetMessage
  unfolding listen_addresses
  answer_peers node = peers (listen_addresses node.peers) ∷ []

  -- `GetBlockData`
  unfoldable pub answer_block_data : List Hash256 → NodeState F S → List NetMessage
  answer_block_data hashes node =
      let found = blocks_by_hashes env node.chain (take 100 hashes) in
      unless_empty found (block_data found)
