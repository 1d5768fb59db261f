-- ===== src/Wallet/Address.antt =====
-- wallet/mod.rs: `pubkey_hash_to_address` and `address_to_pubkey_hash`.
pub mod Laws
use equiforge.Prelude.{
  ℕ, [], ◌∷◌, ◌++◌, Bytes, List, Option, none, some, length, get_or, take, drop, nat_eq, not,
  bytes_eq, map, if◌then◌else◌,
}
use equiforge.Types.{Hash256}
use equiforge.Types.Externals.{Externals, double_sha256}
use equiforge.Wallet.Base58.{bs58_encode, bs58_decode}
use equiforge.Wallet.Keys.{Signer, Keypair, pubkey_hash_of}

abbrev pub address_version : ℕ
address_version = 0x6F

module _ (ext : Externals) where
  -- Four bytes of the double hash.
  unfoldable pub checksum_of : Bytes → Bytes
  checksum_of payload = take 4 (double_sha256 ext payload)

  unfoldable pub pubkey_hash_to_address : Hash256 → Bytes
  pubkey_hash_to_address hash =
      let payload = address_version ∷ hash in bs58_encode (payload ++ checksum_of payload)

  -- The checks on the decoded bytes.
  unfoldable pub open_payload : Bytes → Option Hash256
  open_payload decoded =
      if not (nat_eq (length decoded) 37)
      then none
      else if not (nat_eq (get_or decoded 0 0) address_version)
      then none
      else if not (bytes_eq (checksum_of (take 33 decoded)) (drop 33 decoded))
      then none
      else some (drop 1 (take 33 decoded))

  unfoldable pub address_to_pubkey_hash : Bytes → Option Hash256
  address_to_pubkey_hash address = elim (bs58_decode address) [
    | none ↦ none
    | some decoded ↦ open_payload decoded
  ]

  -- `Keypair::address` and `Wallet::addresses`
  unfoldable pub address : Signer → Keypair → Bytes
  address signer kp = pubkey_hash_to_address (pubkey_hash_of ext signer kp)

  unfoldable pub addresses : Signer → List Keypair → List Bytes
  unfolding address
  addresses signer keypairs = map (λ kp. address signer kp) keypairs
