-- ===== src/Network/Sync/Laws.antt =====
-- What synchronisation asks for, and what it leaves alone.
use equiforge.Prelude.{
  ℕ, ◌≡◌, refl, sym, ap, ◌∙◌, arith, Bool, true, Bool-cases, List, [], ◌∷◌, All-append, Bytes,
  Option-cases, inl, inr, length, is_empty, All, map, none, some, ◌⊎◌, ltb, append-nil,
  if◌then◌else◌, bytes_instance,
}
use equiforge.Prelude.Maps.{get}
use equiforge.Types.{Hash256, BlockHeader, Block}
use equiforge.Types.Externals.{header_hash}
use equiforge.Chain.State.{Env, Chain}
use equiforge.Chain.Headers.{validate_header_chain}
use equiforge.Chain.Headers.Laws.{IsLongestChain, validate_header_chain-IsLongestChain}
use equiforge.Chain.Accept.{timestamps_of}
use equiforge.Chain.Reorg.{chain_from_tip}
use mathlib.Core.List.{reverse}
use equiforge.Network.Sync.Chunks.{
  joined-chunks_in, chunks_in-short, map-IsSmall, asked_hashes, asked_hashes-map,
}
use equiforge.Network.Node.{NodeState}
use equiforge.Network.Serve.Laws.{IsSmall, resync-IsSmall}
use equiforge.Network.Sync.{
  chunks, last, raise_height, raise_to_last, add_chunks, remove_all_confirmed, take_blocks,
  on_blocks, on_block_data, continue_sync, unknown_blocks, ask_blocks, ask_headers, on_headers,
  on_pong,
}

module _ {F S : Type 0} (env : Env F S) where
  raise_height_keeps :
      (peer : Bytes) (height : ℕ) (node : NodeState F S)
      → ((raise_height env peer height node).pending_compacts ≡ node.pending_compacts)
        × ((raise_height env peer height node).mempool ≡ node.mempool)
  unfolding raise_height
  raise_height_keeps peer height node = elim (Option-cases (get node.peers peer)) [
    | inl nobody ↦ rw (raise_height, nobody) (refl, refl)
    | inr (info, known) ↦ rw (raise_height, known) (refl, refl)
  ]

  pub on_pong-pending :
      (now : ℕ) (peer : Bytes) (node : NodeState F S)
      → (on_pong env now peer node).pending_compacts ≡ node.pending_compacts
  unfolding on_pong
  on_pong-pending now peer node = elim (Option-cases (get node.peers peer)) [
    | inl nobody ↦ rw (on_pong, nobody) refl
    | inr (info, known) ↦ rw (on_pong, known) refl
  ]

  pub raise_to_last_keeps :
      (peer : Bytes) (blocks : List Block) (node : NodeState F S)
      → ((raise_to_last env peer blocks node).pending_compacts ≡ node.pending_compacts)
        × ((raise_to_last env peer blocks node).mempool ≡ node.mempool)
  unfolding raise_to_last
  raise_to_last_keeps peer [] node = (refl, refl)
  raise_to_last_keeps peer (block ∷ blocks) node =
      raise_height_keeps peer (last block blocks).header.height node

  pub take_blocks-pending :
      (batch : Bool) (now : ℕ) (peer : Bytes) (blocks : List Block) (node : NodeState F S)
      → (take_blocks env batch now peer blocks node).pending_compacts ≡ node.pending_compacts
  unfolding take_blocks
  take_blocks-pending batch now peer blocks node =
      let (accepted, chain) = add_chunks env batch now (chunks 25 blocks) (0, node.chain) in
      let pool =
        if ltb 0 accepted then remove_all_confirmed env blocks node.mempool else node.mempool in
      (raise_to_last_keeps peer blocks (record node { chain = chain; mempool = pool })).0

  continue_sync-IsSmall :
      (peer : Bytes) (node : NodeState F S) → All IsSmall (continue_sync env peer node)
  unfolding continue_sync
  continue_sync-IsSmall peer node = elim (Option-cases (get node.peers peer)) [
    | inl nobody ↦ rw (continue_sync, nobody) tt
    | inr (info, known) ↦ elim (Bool-cases (ltb node.chain.height info.best_height)) [
      | inl behind ↦ rw (continue_sync, known, behind) (resync-IsSmall env node, tt)
      | inr level ↦ rw (continue_sync, known, level) tt
    ]
  ]

  pub on_blocks-IsSmall :
      (now : ℕ) (peer : Bytes) (blocks : List Block) (node : NodeState F S)
      → All IsSmall (on_blocks env now peer blocks node).0.replies
  unfolding on_blocks
  on_blocks-IsSmall now peer blocks node =
      continue_sync-IsSmall peer (take_blocks env (ltb 10 (length blocks)) now peer blocks node)

  pub on_block_data-IsSmall :
      (now : ℕ) (peer : Bytes) (blocks : List Block) (node : NodeState F S)
      → All IsSmall (on_block_data env now peer blocks node).0.replies
  unfolding on_block_data
  on_block_data-IsSmall now peer blocks node =
      continue_sync-IsSmall peer (take_blocks env true now peer blocks node)

  -- More headers are small, and ask for no block.
  ask_headers_plain :
      (peer : Bytes) (height : ℕ) (node : NodeState F S)
      → All IsSmall (ask_headers env peer height node)
        × (asked_hashes (ask_headers env peer height node) ≡ [])
  unfolding ask_headers
  ask_headers_plain peer height node = elim (Option-cases (get node.peers peer)) [
    | inl nobody ↦ rw (ask_headers, nobody) (tt, refl)
    | inr (info, known) ↦ elim (Bool-cases (ltb height info.best_height)) [
      | inl behind ↦ rw (ask_headers, known, behind) ((tt, tt), refl)
      | inr level ↦ rw (ask_headers, known, level) (tt, refl)
    ]
  ]

  pub on_headers-IsSmall :
      (peer : Bytes) (headers : List BlockHeader) (node : NodeState F S)
      → All IsSmall (on_headers env peer headers node).0.replies
  unfolding on_headers ask_blocks
  on_headers-IsSmall peer [] node = tt
  on_headers-IsSmall peer (first ∷ headers) node =
      let hashes = validate_header_chain env node.chain (first ∷ headers) in
      let need = unknown_blocks env node.chain hashes in
      let height = (last first headers).height in
      let node' = raise_height env peer height node in
      let asked = map-IsSmall (chunks 100 need) (chunks_in-short (length need) 100 need) in
      elim (Bool-cases (is_empty hashes)) [
        | inl none_valid ↦ rw none_valid (resync-IsSmall env node, tt)
        | inr valid ↦ rw valid (
            All-append IsSmall (ask_blocks env need) (ask_headers env peer height node') asked
              (ask_headers_plain peer height node').0)
      ]

  pub on_headers-pending :
      (peer : Bytes) (headers : List BlockHeader) (node : NodeState F S)
      → (on_headers env peer headers node).1.pending_compacts ≡ node.pending_compacts
  unfolding on_headers
  on_headers-pending peer [] node = refl
  on_headers-pending peer (first ∷ headers) node =
      let hashes = validate_header_chain env node.chain (first ∷ headers) in
      elim (Bool-cases (is_empty hashes)) [
        | inl none_valid ↦ rw none_valid refl
        | inr valid ↦ rw valid (raise_height_keeps peer (last first headers).height node).0
      ]

  unknown_blocks-empty :
      (chain : Chain F S) (hashes : List Hash256)
      → is_empty hashes ≡ true
      → unknown_blocks env chain hashes ≡ []
  unfolding unknown_blocks
  unknown_blocks-empty chain [] h = refl
  unknown_blocks-empty chain (x ∷ hashes) h = absurd (cc)

  on_headers_unknown :
      (peer : Bytes) (first : BlockHeader) (headers : List BlockHeader) (node : NodeState F S)
      → asked_hashes (on_headers env peer (first ∷ headers) node).0.replies
        ≡ unknown_blocks env node.chain (validate_header_chain env node.chain (first ∷ headers))
  unfolding on_headers ask_blocks
  on_headers_unknown peer first headers node =
      let hashes = validate_header_chain env node.chain (first ∷ headers) in
      let need = unknown_blocks env node.chain hashes in
      let height = (last first headers).height in
      let more = ask_headers env peer height (raise_height env peer height node) in
      let none_more = (ask_headers_plain peer height (raise_height env peer height node)).1 in
      elim (Bool-cases (is_empty hashes)) [
        | inl none_valid ↦ rw none_valid (sym (unknown_blocks-empty node.chain hashes none_valid))
        | inr valid ↦ rw valid (
            asked_hashes-map (chunks 100 need) more
            ∙ (rw (none_more, joined-chunks_in (length need) 100 need (omega arith) (omega arith))
                (append-nil need)))
      ]

  -- The hashes, in their order, whose blocks are not there.
  abbrev pub AreLacking : Chain F S → List Hash256 → List Hash256 → Type 0
  AreLacking chain [] asked = asked ≡ []
  AreLacking chain (h ∷ hashes) asked =
      ((get chain.blocks h ≡ none)
        × ((others : List Hash256) × (asked ≡ h ∷ others) × AreLacking chain hashes others))
      ⊎ ((block : Block) × (get chain.blocks h ≡ some block) × AreLacking chain hashes asked)

  unknown_blocks-absent :
      (chain : Chain F S) (h : Hash256) (hashes : List Hash256)
      → get chain.blocks h ≡ none
      → unknown_blocks env chain (h ∷ hashes) ≡ h ∷ unknown_blocks env chain hashes
  unfolding unknown_blocks
  unknown_blocks-absent chain h hashes nothing = rw (unknown_blocks, nothing) refl

  unknown_blocks-present :
      (chain : Chain F S) (h : Hash256) (hashes : List Hash256) (block : Block)
      → get chain.blocks h ≡ some block
      → unknown_blocks env chain (h ∷ hashes) ≡ unknown_blocks env chain hashes
  unfolding unknown_blocks
  unknown_blocks-present chain h hashes block there = rw (unknown_blocks, there) refl

  unknown_blocks-AreLacking :
      (chain : Chain F S) (hashes : List Hash256)
      → AreLacking chain hashes (unknown_blocks env chain hashes)
  unknown_blocks-AreLacking chain [] = unfold unknown_blocks in refl
  unknown_blocks-AreLacking chain (h ∷ hashes) =
      let more = unknown_blocks-AreLacking chain hashes in
      elim (Option-cases (get chain.blocks h)) [
        | inl nothing ↦ inl (
          nothing,
          (unknown_blocks env chain hashes, unknown_blocks-absent chain h hashes nothing, more),
        )
        | inr (block, there) ↦
            inr (block, there, (rw (unknown_blocks-present chain h hashes block there) more))
      ]

  -- On headers whose first has a known parent, the node asks, in this order, exactly for the
  -- blocks that it does not have among those of the first headers, as far as each is next after
  -- the one before it: it links to it by its hash, is one higher and later, and has the difficulty
  -- that follows from the timestamps up to there and the work that it claims.
  pub on_headers_asks :
      (peer : Bytes) (first parent : BlockHeader) (headers : List BlockHeader)
      (node : NodeState F S)
      → get node.chain.headers first.prev_hash ≡ some parent
      → let before = reverse (chain_from_tip node.chain.headers first.prev_hash) in
        (kept : List BlockHeader) × IsLongestChain env
          (timestamps_of node.chain.headers before)
          first.prev_hash
          parent.height
          parent.timestamp
          (first ∷ headers)
          kept
        × AreLacking node.chain
            (map (header_hash env.ext) kept)
            (asked_hashes (on_headers env peer (first ∷ headers) node).0.replies)
  on_headers_asks peer first parent headers node found =
      let (kept, hashes, longest) =
        validate_header_chain-IsLongestChain env node.chain first parent headers found in
      let asked =
        on_headers_unknown peer first headers node ∙ ap (unknown_blocks env node.chain) hashes in
      let kept_hashes = map (header_hash env.ext) kept in
      (kept, longest, (rw asked (unknown_blocks-AreLacking node.chain kept_hashes)))
