-- ===== src/Tests/Types.antt =====
-- Coinbases, leading zero bits and Merkle roots of concrete data.
use equiforge.Prelude.{ℕ, ◌*◌, ◌^◌, ◌≤◌, ◌<◌, ◌≡◌, ◌↔◌, refl, arith, [], ◌∷◌, some, map, replicate}
use equiforge.Types.{Hash256, Transaction, BlockHeader, Block, null_hash}
use equiforge.Types.Externals.{tx_hash}
use equiforge.Types.Bits.{leading_zero_bits}
use equiforge.Types.Bits.Laws.{be_value, leading_zero_bits_iff}
use equiforge.Types.Merkle.{merkle_loop, compute_merkle_root}
use equiforge.Types.Merkle.Laws.{compute_merkle_root_total, merkle_root_twice}
use equiforge.Tests.Toy.{toy}

abbrev miner : Hash256
miner = replicate 32 1

abbrev fund : Hash256
fund = replicate 32 2

leading_zero_bits_iff_example :
    (11 ≤ leading_zero_bits (0 ∷ 17 ∷ 3 ∷ [])) ↔ (be_value (0 ∷ 17 ∷ 3 ∷ []) * 2 ^ 11 < 256 ^ 3)
leading_zero_bits_iff_example =
    leading_zero_bits_iff (0 ∷ 17 ∷ 3 ∷ []) 11 (omega arith, (omega arith, (omega arith, tt)))
      (omega arith)

abbrev tx_of : ℕ → Transaction
tx_of n = record { version = n; inputs = []; outputs = []; lock_time = 0 }

abbrev a_header : BlockHeader
a_header = record {
  version = 3;
  prev_hash = null_hash;
  merkle_root = null_hash;
  timestamp = 0;
  difficulty_target = 8;
  nonce = 0;
  height = 1;
}

abbrev three : Block
three = record { header = a_header; transactions = tx_of 1 ∷ tx_of 2 ∷ tx_of 4 ∷ [] }

compute_merkle_root_total_example :
    merkle_loop toy 3 (map (tx_hash toy) three.transactions) ≡ some (compute_merkle_root toy three)
compute_merkle_root_total_example =
    compute_merkle_root_total toy three (tx_of 1) (tx_of 2 ∷ tx_of 4 ∷ []) refl

merkle_root_twice_example :
    compute_merkle_root toy
      (record three { transactions = tx_of 1 ∷ tx_of 2 ∷ tx_of 4 ∷ tx_of 4 ∷ [] })
    ≡ compute_merkle_root toy three
merkle_root_twice_example =
    merkle_root_twice toy three (tx_of 1 ∷ tx_of 2 ∷ []) (tx_of 4) (omega arith) (omega arith)
