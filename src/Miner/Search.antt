-- ===== src/Miner/Search.antt =====
-- miner/mod.rs: `mine_block` and `mine_block_parallel`. The stop flag and the clock are what the
-- rounds of the loop see of them; threads are given in the order in which they end, each with the
-- number of nonces that it tries before it sees the flag.
pub mod Hits
pub mod Laws
use equiforge.Prelude.{
  ℕ, zero, suc, ◌+◌, ◌*◌, ◌/◌, ◌%◌, Bool, true, false, ◌&&◌, List, [], ◌∷◌, Option, none, some,
  nat_eq, ltb, leb, if◌then◌else◌, min, ◌+u64◌,
}
use equiforge.Types.{Block}
use equiforge.Types.Externals.{Externals}
use equiforge.Types.Bits.{meets_difficulty}

pub data MineResult : Type 0 where
  found : Block → MineResult
  cancelled : MineResult

-- `block.header.nonce = nonce`
abbrev pub with_nonce : ℕ → Block → Block
with_nonce nonce block = record block { header = record block.header { nonce = nonce } }

-- The timestamp is refreshed every hundred hashes.
abbrev pub refresh : ℕ → ℕ → Block → Block
refresh now hashes block =
    if nat_eq (hashes % 100) 0 && ltb 0 hashes
    then record block { header = record block.header { timestamp = now } }
    else block

-- The first nonce that is good, from `nonce` on, with `left` nonces left.
unfoldable pub first_hit : (ℕ → Bool) → ℕ → ℕ → Option ℕ
first_hit good zero nonce = none
first_hit good (suc left) nonce =
    let further = first_hit good left (nonce +u64 1) in if good nonce then some nonce else further

module _ (ext : Externals) where
  -- The loop of `mine_block`: none where it still runs after the rounds that are given.
  unfoldable pub search : List (Bool × ℕ) → ℕ → ℕ → Block → Option MineResult
  search [] nonce hashes block = none
  search ((stop, now) ∷ rounds) nonce hashes block =
      let tried = with_nonce nonce block in
      let hashes' = hashes +u64 1 in
      let further = search rounds (nonce +u64 1) hashes' (refresh now hashes' tried) in
      if stop
      then some cancelled
      else if meets_difficulty ext tried.header
      then some (found tried)
      else further

  unfoldable pub mine_block : List (Bool × ℕ) → Block → Option MineResult
  unfolding search
  mine_block rounds block = search rounds 0 0 block

  abbrev pub is_hit : Block → ℕ → Bool
  is_hit block nonce = meets_difficulty ext (with_nonce nonce block).header

  -- One thread; its range has `u64::MAX / threads` nonces.
  unfoldable pub mine_range : ℕ → Block → ℕ × ℕ → Option ℕ
  unfolding first_hit
  mine_range range block (i, tries) = first_hit (is_hit block) (min tries range) (i * range)

  -- What the channel receives first.
  unfoldable pub first_received : ℕ → Block → List (ℕ × ℕ) → MineResult
  unfolding mine_range
  first_received range block [] = cancelled
  first_received range block (thread ∷ order) =
      let later = first_received range block order in
      elim (mine_range range block thread) [
        | none ↦ later
        | some nonce ↦ found (with_nonce nonce block)
      ]

  unfoldable pub mine_block_parallel :
      List (Bool × ℕ) → ℕ → List (ℕ × ℕ) → Block → Option MineResult
  mine_block_parallel rounds threads order block =
      if leb threads 1
      then mine_block rounds block
      else some (first_received (18446744073709551615 / threads) block order)
