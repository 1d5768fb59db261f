-- ===== src/Tests/Blocks.antt =====
-- A chain at its genesis, a block on it, the chain with that block, and a block beside it.
use equiforge.Prelude.{
  ℕ, ◌≤◌, ◌≡◌, ◌≢◌, refl, arith, true, false, List, [], ◌∷◌, ◌++◌, some, ok, err, replicate,
  bytes_eq, le_bytes, bytes_instance, bytes_eq_iff, map, ap, get_or,
}
use equiforge.Prelude.Maps.{get, insert}
use equiforge.Types.{Hash256, null_hash, BlockHeader, Block}
use equiforge.Types.Externals.{header_hash, block_size, tx_hash, double_sha256}
use equiforge.Types.Coinbase.{new_coinbase, is_coinbase, total_output}
use equiforge.Types.Bits.{meets_difficulty}
use equiforge.Params.Rewards.{block_reward, community_fund_amount}
use equiforge.Chain.Validate.{calculate_block_fees}
use equiforge.Chain.BlockRules.{validate_block_transactions}
use equiforge.Chain.Persist.{persist_block_only, persist_tip_extension}
use equiforge.Chain.Difficulty.{
  fractional_to_integer_difficulty, calculate_next_difficulty_fractional, replay, block_work,
}
use equiforge.Types.Merkle.{compute_merkle_root, validate_merkle_root}
use equiforge.Chain.Errors.{invalid_coinbase_amount}
use equiforge.Chain.State.{Chain}
use equiforge.Chain.Headers.{validate_header_chain}
use equiforge.Chain.Headers.Laws.{IsLongestChain, validate_header_chain-IsLongestChain}
use equiforge.Chain.Genesis.{new, create_genesis_block}
use mathlib.Core.List.{reverse}
use equiforge.Chain.Accept.{
  timestamps_of, add_block, new_work, or_zero, check_block, expected_difficulty, next_difficulty,
  begins_with_coinbase, extend_tip, commit_tip, index_block, extend_side,
  difficulty_for_block_on_parent,
}
use equiforge.Chain.Accept.Laws.{
  Checked, Extended, StoredAside, add_block_sound, add_block_rejected, add_block_extends,
  add_block_side,
}
use equiforge.Chain.Reorg.{chain_from_tip, find_in}
use equiforge.Chain.Reorg.Laws.{IsLinked}
use equiforge.Tests.Toy.{toy, toy_env}

abbrev pub hash_of : ℕ → Hash256
hash_of n = replicate 31 0 ++ n ∷ []

abbrev pub block_paying : ℕ → ℕ → Block
block_paying nonce reward =
    let coinbase = new_coinbase 1 reward (replicate 32 1) (replicate 32 0xCF) [] in
    let unrooted : BlockHeader = record {
      version = 3;
      prev_hash = hash_of 7;
      merkle_root = null_hash;
      timestamp = 1001;
      difficulty_target = 8;
      nonce = nonce;
      height = 1;
    } in
    record {
      header = record unrooted {
        merkle_root =
            compute_merkle_root toy (record { header = unrooted; transactions = coinbase ∷ [] });
      };
      transactions = coinbase ∷ [];
    }

abbrev pub first_block : Block
first_block = block_paying 0 5000000000

abbrev greedy_block : Block
greedy_block = block_paying 0 5000000001

abbrev side_block : Block
side_block = block_paying 1 5000000000

abbrev pub at_start : Chain ℕ ℕ
at_start = new toy_env

pub first_accepted : (add_block toy_env 2000 first_block at_start).0 ≡ ok (hash_of 8)
unfolding add_block check_block get new insert bytes_eq header_hash le_bytes create_genesis_block
    expected_difficulty next_difficulty fractional_to_integer_difficulty meets_difficulty
    validate_merkle_root tx_hash double_sha256 new_coinbase community_fund_amount block_size
    begins_with_coinbase is_coinbase extend_tip validate_block_transactions calculate_block_fees
    block_reward total_output
first_accepted = refl

greedy_rejected : (add_block toy_env 2000 greedy_block at_start).0 ≡ err invalid_coinbase_amount
unfolding add_block check_block get new insert bytes_eq header_hash le_bytes create_genesis_block
    expected_difficulty next_difficulty fractional_to_integer_difficulty meets_difficulty
    validate_merkle_root tx_hash double_sha256 new_coinbase community_fund_amount block_size
    begins_with_coinbase is_coinbase extend_tip validate_block_transactions calculate_block_fees
    block_reward total_output
greedy_rejected = refl

on_tip : bytes_eq first_block.header.prev_hash at_start.tip ≡ true
unfolding bytes_eq new create_genesis_block header_hash le_bytes
on_tip = refl

add_block_sound_example :
    (hash_of 8 ≡ header_hash toy first_block.header)
    × ((parent : BlockHeader) × Checked toy_env 2000 first_block at_start parent)
add_block_sound_example =
    add_block_sound toy_env 2000 first_block at_start (hash_of 8) first_accepted

add_block_extends_example :
    Extended toy_env 2000 first_block at_start
      (hash_of 8)
      (add_block toy_env 2000 first_block at_start).1
add_block_extends_example =
    add_block_extends toy_env 2000 first_block at_start (hash_of 8) on_tip first_accepted

add_block_rejected_example : (add_block toy_env 2000 greedy_block at_start).1 ≡ at_start
add_block_rejected_example =
    add_block_rejected toy_env 2000 greedy_block at_start invalid_coinbase_amount on_tip
      greedy_rejected

abbrev one_up : Chain ℕ ℕ
one_up = (add_block toy_env 2000 first_block at_start).1

aside : bytes_eq side_block.header.prev_hash one_up.tip ≡ false
unfolding add_block check_block get new insert bytes_eq header_hash le_bytes create_genesis_block
    expected_difficulty next_difficulty fractional_to_integer_difficulty meets_difficulty
    validate_merkle_root tx_hash double_sha256 new_coinbase community_fund_amount block_size
    begins_with_coinbase is_coinbase extend_tip validate_block_transactions calculate_block_fees
    block_reward total_output commit_tip index_block persist_block_only persist_tip_extension
    calculate_next_difficulty_fractional extend_side difficulty_for_block_on_parent chain_from_tip
    replay new_work block_work
aside = refl

side_accepted : (add_block toy_env 2000 side_block one_up).0 ≡ ok (hash_of 9)
unfolding add_block check_block get new insert bytes_eq header_hash le_bytes create_genesis_block
    expected_difficulty next_difficulty fractional_to_integer_difficulty meets_difficulty
    validate_merkle_root tx_hash double_sha256 new_coinbase community_fund_amount block_size
    begins_with_coinbase is_coinbase extend_tip validate_block_transactions calculate_block_fees
    block_reward total_output commit_tip index_block persist_block_only persist_tip_extension
    calculate_next_difficulty_fractional extend_side difficulty_for_block_on_parent chain_from_tip
    replay new_work block_work
side_accepted = refl

pub last_byte : (m n : ℕ) → hash_of m ≡ hash_of n → m ≡ n
last_byte m n e = ap (λ h. get_or h 31 0) e

nine_not_eight : hash_of 9 ≢ hash_of 8
nine_not_eight e = absurd (omega (arith, last_byte 9 8 e))

side_new : header_hash toy side_block.header ≢ one_up.tip
unfolding add_block check_block get new insert bytes_eq header_hash le_bytes create_genesis_block
    expected_difficulty next_difficulty fractional_to_integer_difficulty meets_difficulty
    validate_merkle_root tx_hash double_sha256 new_coinbase community_fund_amount block_size
    begins_with_coinbase is_coinbase extend_tip validate_block_transactions calculate_block_fees
    block_reward total_output commit_tip index_block persist_block_only persist_tip_extension
    calculate_next_difficulty_fractional extend_side difficulty_for_block_on_parent chain_from_tip
    replay new_work block_work
side_new = λ e. nine_not_eight e

side_work : new_work toy_env side_block one_up ≤ or_zero (get one_up.cumulative_work one_up.tip)
unfolding add_block check_block get new insert bytes_eq header_hash le_bytes create_genesis_block
    expected_difficulty next_difficulty fractional_to_integer_difficulty meets_difficulty
    validate_merkle_root tx_hash double_sha256 new_coinbase community_fund_amount block_size
    begins_with_coinbase is_coinbase extend_tip validate_block_transactions calculate_block_fees
    block_reward total_output commit_tip index_block persist_block_only persist_tip_extension
    calculate_next_difficulty_fractional extend_side difficulty_for_block_on_parent chain_from_tip
    replay new_work block_work
side_work = omega arith

add_block_side_example :
    StoredAside toy_env 2000 side_block one_up
      (hash_of 9)
      (add_block toy_env 2000 side_block one_up).1
add_block_side_example =
    add_block_side toy_env 2000 side_block one_up (hash_of 9) aside side_new side_work side_accepted

found : find_in (hash_of 8 ∷ hash_of 7 ∷ []) (hash_of 9 ∷ hash_of 7 ∷ []) ≡ some (hash_of 7)
unfolding find_in bytes_eq
found = refl

abbrev genesis_header : BlockHeader
genesis_header = record first_block.header { prev_hash = null_hash; height = 0 }

abbrev one_header : List (Hash256 × BlockHeader)
one_header = (hash_of 7, genesis_header) ∷ []

one_known :
    (h : Hash256) (header : BlockHeader)
    → get one_header h ≡ some header
    → (h ≡ hash_of 7) × (header ≡ genesis_header)
unfolding get
one_known h header e = ground (arith, bytes_eq_iff (hash_of 7) h)

seven_not_null : null_hash ≢ hash_of 7
seven_not_null e = absurd (omega (arith, last_byte 0 7 e))

seven_not_eight : hash_of 7 ≢ hash_of 8
seven_not_eight e = absurd (omega (arith, last_byte 7 8 e))

null_not_eight : null_hash ≢ hash_of 8
null_not_eight e = absurd (omega (arith, last_byte 0 8 e))

one-IsLinked : IsLinked one_header
one-IsLinked = record {
  rises = λ h header parent e f.
      let (_, same) = one_known h header e in
      let (again, _) = one_known header.prev_hash parent f in
      absurd (seven_not_null (rw same at again));
}

parent_found : get one_header (hash_of 7) ≡ some genesis_header
unfolding get bytes_eq
parent_found = refl

genesis_found : get at_start.headers (hash_of 7) ≡ some (create_genesis_block toy_env).header
unfolding get insert new create_genesis_block header_hash le_bytes bytes_eq
genesis_found = refl

validate_header_chain-IsLongestChain_example :
    (kept : List BlockHeader) × (validate_header_chain toy_env at_start
        (first_block.header ∷ side_block.header ∷ [])
      ≡ map (header_hash toy) kept)
    × IsLongestChain toy_env
        (timestamps_of at_start.headers (reverse (chain_from_tip at_start.headers (hash_of 7))))
        (hash_of 7)
        (create_genesis_block toy_env).header.height
        (create_genesis_block toy_env).header.timestamp
        (first_block.header ∷ side_block.header ∷ [])
        kept
validate_header_chain-IsLongestChain_example =
    validate_header_chain-IsLongestChain toy_env at_start first_block.header
      (create_genesis_block toy_env).header (side_block.header ∷ []) genesis_found
