-- ===== src/Tests/Protocol.antt =====
-- Connections of a node at its genesis block.
use equiforge.Prelude.{
  ◌⊎◌, ℕ, ◌≤◌, ◌<◌, ◌≡◌, ◌↔◌, refl, arith, true, false, List, [], ◌∷◌, some, none, ok, err,
  Result-cases, inl, inr, map, All, length, bytes_instance, bytes_eq, le_bytes,
}
use equiforge.Prelude.Maps.{get, insert, HasOnce}
use equiforge.Types.{Transaction, BlockHeader}
use equiforge.Types.Externals.{header_hash}
use equiforge.Chain.Accept.{add_block}
use equiforge.Chain.Genesis.{new, create_genesis_block}
use equiforge.Chain.Headers.Laws.{IsLongestChain}
use equiforge.Chain.Accept.{timestamps_of}
use equiforge.Chain.Reorg.{chain_from_tip}
use mathlib.Core.List.{reverse}
use equiforge.Network.Mempool.{get_pending}
use equiforge.Network.Peers.{is_banned}
use equiforge.Network.Message.{version_v2, get_block, ping, read_header}
use equiforge.Network.Node.{NodeState, PeerInfo}
use equiforge.Network.Relay.{finish_compact, on_compact_block}
use equiforge.Network.Relay.Laws.{HasRoom}
use equiforge.Network.Serve.{listen_addresses}
use equiforge.Network.Serve.Laws.{IsSmall}
use equiforge.Network.Sync.{
  add_chunks, add_blocks, chunks, chunks_in, take_blocks, on_headers, our_address,
}
use equiforge.Network.Sync.Chunks.{asked_hashes}
use equiforge.Network.Sync.Laws.{AreLacking, on_headers_asks}
use equiforge.Network.Sync.Eviction.{Forgets, take_blocks-Forgets}
use equiforge.Network.Handler.{handle_message}
use equiforge.Network.Handler.Laws.{handle_message-IsSmall}
use equiforge.Network.Connection.{
  Received, Event, received, keepalive_due, ends, shake_hands, converse,
}
use equiforge.Network.Connection.Laws.{IsWelcome, shake_hands_iff, converse_leaves}
use equiforge.Network.Relay.Missing.{AreFound, IsWaiting, started, on_compact_block_asks}
use equiforge.Network.Maintenance.{maintain}
use equiforge.Network.Maintenance.Laws.{IsFree, IsFresh, IsSeen, maintain_lawful}
use equiforge.Tests.Toy.{toy, toy_env}
use equiforge.Tests.Utxos.{carrier}
use equiforge.Tests.Blocks.{at_start, hash_of, first_block, first_accepted}
use equiforge.Tests.Network.{peer}
use equiforge.Tests.Relay.{idle, first_coinbase, is_new, is_strong}

handle_message-IsSmall_example :
    All IsSmall (handle_message toy_env 2000 peer (get_block (hash_of 7)) idle).0.replies
handle_message-IsSmall_example =
    handle_message-IsSmall toy_env 2000 peer (get_block (hash_of 7)) idle

one_accepted :
    0 < (add_chunks toy_env false 2000 (chunks 25 (first_block ∷ carrier ∷ [])) (0, at_start)).0
unfolding add_chunks chunks_in
one_accepted =
    elim (Result-cases
      (add_block toy_env 2000 carrier (add_block toy_env 2000 first_block at_start).1).0) [
        | inl (h, taken) ↦ rw (add_chunks, add_blocks, taken, first_accepted) (omega arith)
        | inr (e, refused) ↦ rw (add_chunks, add_blocks, refused, first_accepted) (omega arith)
      ]

take_blocks-Forgets_example :
    All
      (Forgets toy_env
        (take_blocks toy_env false 2000 peer (first_block ∷ carrier ∷ []) idle).mempool)
      (first_block ∷ carrier ∷ [])
take_blocks-Forgets_example =
    take_blocks-Forgets toy_env false 2000 peer (first_block ∷ carrier ∷ []) idle one_accepted

genesis_there :
    get at_start.headers first_block.header.prev_hash ≡ some (create_genesis_block toy_env).header
unfolding get insert new create_genesis_block header_hash le_bytes bytes_eq
genesis_there = refl

on_headers_asks_example :
    (kept : List BlockHeader) × IsLongestChain toy_env
      (timestamps_of at_start.headers (reverse (chain_from_tip at_start.headers (hash_of 7))))
      (hash_of 7)
      (create_genesis_block toy_env).header.height
      (create_genesis_block toy_env).header.timestamp
      (first_block.header ∷ [])
      kept
    × AreLacking toy_env at_start
        (map (header_hash toy) kept)
        (asked_hashes (on_headers toy_env peer (first_block.header ∷ []) idle).0.replies)
on_headers_asks_example =
    on_headers_asks toy_env peer first_block.header (create_genesis_block toy_env).header [] idle
      genesis_there

abbrev greeting : Received
greeting = ok (version_v2 4 12 (hash_of 9) (hash_of 7) 1990 9333)

shake_hands_iff_example :
    ((shake_hands toy_env 2000 peer greeting none idle).0 ≡ true)
    ↔ ((is_banned 2000 peer idle.scoreboard ≡ false) × IsWelcome toy_env greeting idle)
shake_hands_iff_example = shake_hands_iff toy_env 2000 peer greeting none idle

abbrev conversation : List (ℕ × Event)
conversation =
    (2001, received (ok (ping 5))) ∷ (2060, keepalive_due) ∷ (2061, received (err read_header)) ∷ []

converse_leaves_example :
    HasRoom toy_env (converse toy_env peer conversation idle).2
    × ((converse toy_env peer conversation idle).0 ≡ ends
        → get (converse toy_env peer conversation idle).2.peers peer ≡ none)
converse_leaves_example = converse_leaves toy_env peer conversation idle (omega arith)

-- A transaction of the block is unknown, so it is asked for.
on_compact_block_asks_example :
    ((txs : List Transaction) × AreFound toy_env
        (get_pending toy_env idle.mempool)
        (hash_of 5 ∷ [])
        txs
      × (on_compact_block toy_env 2000 peer first_block.header (hash_of 5 ∷ []) first_coinbase idle
          ≡ finish_compact toy_env 2000
              (started toy_env 2000 first_block.header first_coinbase)
              (first_coinbase ∷ txs)
              idle))
    ⊎ IsWaiting toy_env
        (hash_of 5 ∷ [])
        first_block.header
        idle
        (on_compact_block toy_env 2000 peer first_block.header (hash_of 5 ∷ []) first_coinbase idle)
on_compact_block_asks_example =
    on_compact_block_asks toy_env 2000 peer first_block.header (hash_of 5 ∷ []) first_coinbase idle
      is_new is_strong

abbrev friend : PeerInfo
friend = record {
  address = peer;
  listen_address = 49 ∷ 58 ∷ 57 ∷ [];
  version = 4;
  best_height = 3;
  last_seen = 1800;
  supports_v2 = true;
}

abbrev company : NodeState ℕ ℕ
company = record idle {
  peers = (peer, friend) ∷ [];
  known_addresses = (56 ∷ 58 ∷ 57 ∷ []) ∷ (49 ∷ 58 ∷ 57 ∷ []) ∷ [];
}

not_banned : HasOnce company.scoreboard.bans
unfolding get bytes_eq
not_banned = (refl, tt)

maintain_lawful_example :
    All
      (IsFree 2000 (our_address 9333) (listen_addresses company.peers) company.scoreboard)
      (maintain toy_env 2000 [] company).0
    × (length (maintain toy_env 2000 [] company).0 ≤ 3)
    × All (IsFresh 2000) (maintain toy_env 2000 [] company).2.pending_compacts
    × (length (maintain toy_env 2000 [] company).2.pending_compacts ≤ 0)
    × All (IsSeen 2000) (maintain toy_env 2000 [] company).2.peers
    × (length (maintain toy_env 2000 [] company).1 ≤ 4)
maintain_lawful_example = maintain_lawful toy_env 2000 [] company not_banned (omega arith)
