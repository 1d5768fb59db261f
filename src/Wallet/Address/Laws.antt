-- ===== src/Wallet/Address/Laws.antt =====
-- Addresses are read as they are written, and no others are accepted.
use equiforge.Prelude.{
  ◌≡◌, ◌<◌, refl, ap, ap₂, ◌∙◌, sym, arith, true, inl, inr, [], ◌∷◌, ◌++◌, Bytes, Option-cases,
  some, length, length-append, length-take, take, drop, take-append-drop, take-append_at,
  drop-append_at, nat_eq, bytes_eq, bytes_eq_iff, All-append, All-take,
}
use equiforge.Types.{Hash256}
use equiforge.Types.Externals.{Externals, double_sha256}
use equiforge.Wallet.Base58.{bs58_decode}
use equiforge.Wallet.Base58.Radix.{AreBytes}
use equiforge.Wallet.Base58.RoundTrip.{bs58_decode-encode}
use equiforge.Wallet.Address.{
  address_version, checksum_of, pubkey_hash_to_address, open_payload, address_to_pubkey_hash,
}

-- What `sha2` documents: a digest is 32 bytes.
pub record IsDigest (ext : Externals) : Type 0 where
  pub length-sha256 : (message : Bytes) → length (ext.sha256 message) ≡ 32
  pub sha256-AreBytes : (message : Bytes) → AreBytes (ext.sha256 message)

module _ (ext : Externals) where
  open_payload_made :
      (hash : Hash256) (checksum : Bytes)
      → length hash ≡ 32
      → length checksum ≡ 4
      → checksum_of ext (address_version ∷ hash) ≡ checksum
      → open_payload ext ((address_version ∷ hash) ++ checksum) ≡ some hash
  unfolding open_payload
  open_payload_made hash checksum h k same =
      let payload = address_version ∷ hash in
      let whole : length (payload ++ checksum) ≡ 37 =
        omega (arith, length-append payload checksum) in
      let front = take-append_at 33 payload checksum (omega arith) in
      let back = drop-append_at 33 payload checksum (omega arith) in
      let decoded = payload ++ checksum in
      let sized : nat_eq (length decoded) 37 ≡ true = ground (arith, whole) in
      let checked : bytes_eq (checksum_of ext (take 33 decoded)) (drop 33 decoded) ≡ true =
        (bytes_eq_iff (checksum_of ext (take 33 decoded)) (drop 33 decoded)).1
          (ap (checksum_of ext) front ∙ same ∙ sym back) in
      rw (open_payload, sized, checked) (ap (λ t. some (drop 1 t)) front)

  open_payload_sound :
      (decoded : Bytes) (hash : Hash256)
      → open_payload ext decoded ≡ some hash
      → (decoded ≡ (address_version ∷ hash) ++ checksum_of ext (address_version ∷ hash))
        × (length hash ≡ 32)
  unfolding open_payload
  open_payload_sound [] hash e = absurd (cc)
  open_payload_sound (b ∷ bs) hash e =
      let sum = checksum_of ext (take 33 (b ∷ bs)) in
      let right = drop 33 (b ∷ bs) in
      let sized : length (b ∷ bs) ≡ 37 = ground arith in
      let first : b ≡ address_version = ground arith in
      let checked : sum ≡ right = ground (arith, bytes_eq_iff sum right) in
      let is_hash : take 32 bs ≡ hash = ground arith in
      let front : take 33 (b ∷ bs) ≡ address_version ∷ hash = cc (first, is_hash) in
      (
        sym (take-append-drop 33 (b ∷ bs))
            ∙ ap₂ (λ s t. s ++ t) front (sym checked ∙ ap (checksum_of ext) front),
        omega (arith, sized, length-take 32 bs, ap length is_hash),
      )

  -- The address of a hash of 32 bytes is read as that hash.
  pub address_to_pubkey_hash-address :
      (hash : Hash256)
      → IsDigest ext
      → length hash ≡ 32
      → AreBytes hash
      → address_to_pubkey_hash ext (pubkey_hash_to_address ext hash) ≡ some hash
  unfolding address_to_pubkey_hash pubkey_hash_to_address checksum_of double_sha256
  address_to_pubkey_hash-address hash digest h bytes =
      let payload = address_version ∷ hash in
      let double = double_sha256 ext payload in
      let full : length double ≡ 32 = digest.length-sha256 (ext.sha256 payload) in
      let sum_bytes : AreBytes (take 4 double) =
        All-take (λ b. b < 256) 4 double (digest.sha256-AreBytes (ext.sha256 payload)) in
      let read : bs58_decode (pubkey_hash_to_address ext hash) ≡ some (payload ++ take 4 double) =
        bs58_decode-encode (payload ++ take 4 double)
          (All-append (λ b. b < 256) payload (take 4 double) (omega arith, bytes) sum_bytes) in
      let opened =
        open_payload_made hash (take 4 double) h (omega (arith, length-take 4 double)) refl in
      rw (address_to_pubkey_hash, read) opened

  -- An address that is accepted decodes to the version, the hash of 32 bytes and their checksum.
  pub address_to_pubkey_hash_sound :
      (address : Bytes) (hash : Hash256)
      → address_to_pubkey_hash ext address ≡ some hash
      → (bs58_decode address
          ≡ some ((address_version ∷ hash) ++ checksum_of ext (address_version ∷ hash)))
        × (length hash ≡ 32)
  unfolding address_to_pubkey_hash
  address_to_pubkey_hash_sound address hash e = elim (Option-cases (bs58_decode address)) [
    | inl bad ↦ absurd (ground arith)
    | inr (decoded, good) ↦
        let (is_payload, sized) = open_payload_sound decoded hash (ground arith) in
        (good ∙ ap (λ t. some t) is_payload, sized)
  ]
