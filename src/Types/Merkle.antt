-- ===== src/Types/Merkle.antt =====
-- core/types.rs: `Block::compute_merkle_root` and `validate_merkle_root`.
pub mod Laws
use equiforge.Prelude.{
  ℕ, zero, suc, ◌%◌, Bool, true, false, not, List, [], ◌∷◌, ◌++◌, map, nat_eq, ltb, bytes_eq,
  if◌then◌else◌, length, Option, none, some, is_empty,
}
use equiforge.Types.Data.{Hash256, null_hash, Block}
use equiforge.Types.Externals.{Externals, double_sha256, tx_hash}

last_of : List Hash256 → List Hash256
last_of [] = []
last_of (h ∷ []) = h ∷ []
last_of (h ∷ k ∷ hs) = last_of (k ∷ hs)

-- A level of odd length gets a second copy of its last hash.
unfoldable pub pad_odd : List Hash256 → List Hash256
unfolding last_of
pad_odd hashes = if not (nat_eq (length hashes % 2) 0) then hashes ++ last_of hashes else hashes

unfoldable pub first_hash : List Hash256 → Hash256
first_hash [] = null_hash
first_hash (h ∷ _) = h

root_of : Option Hash256 → Hash256
root_of none = null_hash
root_of (some root) = root

module _ (ext : Externals) where
  -- `hashes.chunks(2)`, each pair hashed together. After `pad_odd` no single hash is left over.
  unfoldable pub next_level : List Hash256 → List Hash256
  next_level [] = []
  next_level (a ∷ []) = []
  next_level (a ∷ b ∷ hs) = double_sha256 ext (a ++ b) ∷ next_level hs

  -- The `while` loop; `none` means that the fuel ran out.
  unfoldable pub merkle_loop : ℕ → List Hash256 → Option Hash256
  unfolding next_level pad_odd first_hash
  merkle_loop zero hashes = none
  merkle_loop (suc fuel) hashes =
      let higher = merkle_loop fuel (next_level (pad_odd hashes)) in
      if ltb 1 (length hashes) then higher else some (first_hash hashes)

  unfoldable pub compute_merkle_root : Block → Hash256
  unfolding merkle_loop root_of
  compute_merkle_root block =
      let hashes = map (tx_hash ext) block.transactions in
      if is_empty block.transactions
      then null_hash
      else root_of (merkle_loop (length hashes) hashes)

  unfoldable pub validate_merkle_root : Block → Bool
  unfolding compute_merkle_root
  validate_merkle_root block = bytes_eq block.header.merkle_root (compute_merkle_root block)
