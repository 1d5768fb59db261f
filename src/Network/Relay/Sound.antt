-- ===== src/Network/Relay/Sound.antt =====
-- What is sent on was accepted.
use equiforge.Prelude.{
  ℕ, ◌≤◌, ◌≡◌, refl, sym, arith, Bool-cases, inl, inr, List, [], ◌∷◌, Bytes, Option, none, some,
  ltb, is_empty, Result-cases, ◌∙◌, ok, ap, bytes_instance,
}
use equiforge.Prelude.Maps.{contains_key}
use equiforge.Types.{Hash256, Transaction, BlockHeader, Block}
use equiforge.Types.Externals.{header_hash}
use equiforge.Types.Bits.{leading_zero_bits}
use equiforge.Chain.State.{Env}
use equiforge.Chain.Accept.{add_block}
use equiforge.Network.Mempool.{get_pending}
use equiforge.Network.Compact.{PendingCompact, place_found, all_there, or_nothing}
use equiforge.Network.Node.{NodeState}
use equiforge.Network.Relay.{
  accept_block, is_orphan, find_pending, reconstruct, finish_compact, await_compact,
  on_compact_block,
}

place_found-header :
    (id : Hash256) (tx : Option Transaction) (pc : PendingCompact)
    → (place_found id tx pc).header ≡ pc.header
unfolding place_found
place_found-header id none pc = refl
place_found-header id (some tx) pc = refl

module _ {F S : Type 0} (env : Env F S) where
  pub reconstruct-header :
      (pending : List Transaction) (ids : List Hash256) (pc : PendingCompact)
      → (reconstruct env pending ids pc).header ≡ pc.header
  unfolding reconstruct
  reconstruct-header pending [] pc = refl
  reconstruct-header pending (id ∷ ids) pc =
      let found = find_pending env id pending in
      reconstruct-header pending ids (place_found id found pc) ∙ place_found-header id found pc

  accept_block_ok :
      (now : ℕ) (block : Block) (node : NodeState F S) (hash : Hash256)
      → (accept_block env now block node).0 ≡ ok hash
      → (add_block env now block node.chain).0 ≡ ok hash
  unfolding accept_block
  accept_block_ok now block node hash e =
      elim (Result-cases (add_block env now block node.chain).0) [
        | inl (h, accepted) ↦ ground arith
        | inr (x, refused) ↦ absurd (ground arith)
      ]

  finish_compact_relays :
      (now : ℕ) (pc : PendingCompact) (txs : List Transaction) (node : NodeState F S)
      (block : Block) (others : List Block)
      → (finish_compact env now pc txs node).0.blocks ≡ block ∷ others
      → (block.header ≡ pc.header)
        × ((hash : Hash256) × ((add_block env now block node.chain).0 ≡ ok hash))
  unfolding finish_compact
  finish_compact_relays now pc txs node block others e =
      let made : Block = record { header = pc.header; transactions = txs } in
      elim (Result-cases (accept_block env now made node).0) [
        | inr (x, refused) ↦ elim (Bool-cases (is_orphan x)) [
          | inl orphan ↦ absurd (ground arith)
          | inr other ↦ absurd (ground arith)
        ]
        | inl (hash, accepted) ↦
            let is : made ≡ block = ground arith in
            let added = accept_block_ok now made node hash accepted in
            (ap (λ (b : Block). b.header) (sym is), (hash, (rw is at added)))
      ]

  -- The block that a compact block leads the node to send on was accepted by the chain, has the
  -- header that came, and its hash has the leading zeros that the header claims.
  pub on_compact_block_relays :
      (now : ℕ) (peer : Bytes) (header : BlockHeader) (ids : List Hash256) (coinbase : Transaction)
      (node : NodeState F S) (block : Block) (others : List Block)
      → (on_compact_block env now peer header ids coinbase node).0.blocks ≡ block ∷ others
      → (block.header ≡ header)
        × (header.difficulty_target ≤ leading_zero_bits (header_hash env.ext header))
        × ((hash : Hash256) × ((add_block env now block node.chain).0 ≡ ok hash))
  unfolding on_compact_block await_compact
  on_compact_block_relays now peer header ids coinbase node block others e =
      let h = header_hash env.ext header in
      let start : PendingCompact = record {
        header = header;
        txs = some coinbase ∷ [];
        index_map = [];
        missing = [];
        created_at = now;
      } in
      let pc = reconstruct env (get_pending env node.mempool) ids start in
      elim (Bool-cases (contains_key node.chain.blocks h)) [
        | inl known ↦ absurd (ground arith)
        | inr new ↦ elim (Bool-cases (ltb (leading_zero_bits h) header.difficulty_target)) [
          | inl weak ↦ absurd (ground arith)
          | inr strong ↦ elim (Bool-cases (is_empty pc.missing)) [
            | inr some_missing ↦ absurd (ground arith)
            | inl all ↦
                let sent : (finish_compact env now pc (or_nothing (all_there pc.txs)) node).0.blocks
                    ≡ block ∷ others =
                  ground arith in
                let (same, added) =
                  finish_compact_relays now pc (or_nothing (all_there pc.txs)) node block others
                    sent in
                (
                  same ∙ reconstruct-header (get_pending env node.mempool) ids start,
                  ground arith,
                  added,
                )
          ]
        ]
      ]
