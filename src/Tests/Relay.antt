-- ===== src/Tests/Relay.antt =====
-- Messages to a node at its genesis block.
use equiforge.Prelude.{
  ℕ, ◌≤◌, ◌≡◌, refl, [], ◌∷◌, some, ok, replicate, false, bytes_instance, bytes_eq, le_bytes, ltb,
}
use equiforge.Prelude.Maps.{get, insert, contains_key}
use equiforge.Types.{Hash256, Transaction}
use equiforge.Types.Externals.{header_hash}
use equiforge.Types.Bits.{leading_zero_bits}
use equiforge.Types.Coinbase.{new_coinbase}
use equiforge.Chain.Accept.{add_block}
use equiforge.Chain.Genesis.{new, create_genesis_block}
use equiforge.Network.Compact.{all_there, or_nothing, PendingCompact}
use equiforge.Network.Node.{NodeState}
use equiforge.Network.Relay.{on_compact_block, reconstruct, finish_compact, accept_block}
use equiforge.Network.Relay.Sound.{on_compact_block_relays}
use equiforge.Tests.Toy.{toy, toy_env}
use equiforge.Tests.Blocks.{at_start, hash_of, first_block, first_accepted}
use equiforge.Tests.Network.{pool, board, peer}

abbrev pub idle : NodeState ℕ ℕ
idle = record {
  chain = at_start;
  mempool = pool;
  peers = [];
  scoreboard = board;
  known_addresses = [];
  listen_port = 9333;
  pending_compacts = [];
}

abbrev pub first_coinbase : Transaction
first_coinbase = new_coinbase 1 5000000000 (replicate 32 1) (replicate 32 0xCF) []

pub is_new : contains_key idle.chain.blocks (header_hash toy first_block.header) ≡ false
unfolding get new insert bytes_eq header_hash le_bytes create_genesis_block
is_new = refl

pub is_strong :
    ltb
      (leading_zero_bits (header_hash toy first_block.header))
      first_block.header.difficulty_target
    ≡ false
unfolding header_hash leading_zero_bits le_bytes
is_strong = refl

abbrev first_compact : PendingCompact
first_compact = record {
  header = first_block.header;
  txs = some first_coinbase ∷ [];
  index_map = [];
  missing = [];
  created_at = 2000;
}

is_accepted : (accept_block toy_env 2000 first_block idle).0 ≡ ok (hash_of 8)
unfolding accept_block
is_accepted = rw (accept_block, first_accepted) refl

is_finished :
    (finish_compact toy_env 2000 first_compact (first_coinbase ∷ []) idle).0.blocks
    ≡ first_block ∷ []
unfolding finish_compact
is_finished = rw (finish_compact, is_accepted) refl

is_relayed :
    (on_compact_block toy_env 2000 peer first_block.header [] first_coinbase idle).0.blocks
    ≡ first_block ∷ []
unfolding on_compact_block reconstruct all_there or_nothing
is_relayed = rw (is_new, is_strong) is_finished

on_compact_block_relays_example :
    (first_block.header ≡ first_block.header)
    × (first_block.header.difficulty_target
        ≤ leading_zero_bits (header_hash toy first_block.header))
    × ((hash : Hash256) × ((add_block toy_env 2000 first_block at_start).0 ≡ ok hash))
on_compact_block_relays_example =
    on_compact_block_relays toy_env 2000 peer first_block.header [] first_coinbase idle first_block
      [] is_relayed
