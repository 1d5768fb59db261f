-- ===== src/Wallet/File/Laws.antt =====
-- A wallet that is saved is loaded as it was, and one that is loaded or made is there from then on.
use equiforge.Prelude.{
  ◌≡◌, refl, ap, sym, ◌∙◌, List, [], ◌∷◌, Bytes, map, Option, none, some, length, is_empty, false,
  ok, Option-cases, Result-cases, inl, inr, bytes_instance,
}
use mathlib.Core.Path.{subst}
use equiforge.Prelude.Maps.{get, get-insert_self}
use equiforge.Types.{IsHash}
use equiforge.Types.Externals.{Externals}
use equiforge.Wallet.Keys.{Keypair, from_secret_bytes, secret_bytes}
use equiforge.Wallet.Cipher.{derive_key, encrypt_data, decrypt-encrypt}
use equiforge.Wallet.File.{
  Codec, IsFaithful, Wallet, Random, Disk, to_wallet_file, from_wallet_file, open_encrypted, save,
  create_at, load_or_create_with_password, new, ok_or, or_cipher,
}

keys_again :
    (keypairs : List Keypair) → map from_secret_bytes (map secret_bytes keypairs) ≡ keypairs
unfolding from_secret_bytes secret_bytes
keys_again [] = refl
keys_again (kp ∷ keypairs) = ap (λ kps. kp ∷ kps) (keys_again keypairs)

module _ {Text : Type 0} (ext : Externals) (codec : Codec Text) where
  file_again :
      (random : Random) (keypairs : List Keypair) (label : Bytes) (path password : Option Bytes)
      → IsFaithful codec
      → ((bytes : Bytes) → IsHash (ext.sha256 bytes))
      → length random.nonce ≡ 12
      → is_empty keypairs ≡ false
      → (let wallet : Wallet = record {
        keypairs = keypairs;
        label = label;
        path = path;
        password = password;
      } in
          from_wallet_file ext codec (to_wallet_file ext codec random wallet) password
          ≡ ok (record wallet { path = none }))
  unfolding from_wallet_file to_wallet_file open_encrypted ok_or or_cipher
  file_again random [] label path password faithful sized size some_key = absurd (cc)
  file_again random (kp ∷ keypairs) label path none faithful sized size some_key =
      ap (λ kps. ok (record { keypairs = kps; label = label; path = none; password = none }))
        (keys_again (kp ∷ keypairs))
  file_again random (kp ∷ keypairs) label path (some password) faithful sized size some_key =
      let keys = map secret_bytes (kp ∷ keypairs) in
      let plaintext = codec.serialize (keys, label) in
      let key = derive_key ext password random.salt in
      let encrypted = encrypt_data ext plaintext key random.nonce in
      rw
        (
          faithful.hex_decode-hex_encode random.salt,
          faithful.hex_decode-hex_encode random.nonce,
          faithful.hex_decode-hex_encode encrypted,
          size,
          decrypt-encrypt ext plaintext key random.nonce sized,
          faithful.deserialize-serialize (keys, label),
          keys_again (kp ∷ keypairs),
        )
        refl

  -- A wallet with a path and a key that is saved is loaded again with its password, with the same
  -- keys and label, whatever label is asked for, and nothing is written then; if every text is
  -- decoded to what was encoded, a digest is 32 bytes and the nonce is 12.
  pub load-save :
      (path label : Bytes) (random other : Random) (wallet : Wallet) (disk : Disk Text)
      → IsFaithful codec
      → ((bytes : Bytes) → IsHash (ext.sha256 bytes))
      → length random.nonce ≡ 12
      → is_empty wallet.keypairs ≡ false
      → (let placed = record wallet { path = some path } in
          let disk' = save ext codec random placed disk in
          load_or_create_with_password ext codec path label wallet.password other disk'
          ≡ ok (placed, disk'))
  unfolding load_or_create_with_password save
  load-save path label random other wallet disk faithful sized size some_key =
      let placed = record wallet { path = some path } in
      let file = to_wallet_file ext codec random placed in
      rw
        (
          load_or_create_with_password,
          get-insert_self path (codec.print file) disk,
          faithful.parse-print file,
          file_again random wallet.keypairs wallet.label (some path) wallet.password faithful sized
              size some_key,
        )
        refl

  -- The wallet of `create_at`.
  abbrev pub fresh_wallet : Bytes → Bytes → Option Bytes → Random → Wallet
  fresh_wallet path label password random = record (new label random) {
    path = some path;
    password = password;
  }

  created_again :
      (path label later_label : Bytes) (password : Option Bytes) (random later : Random)
      (wallet : Wallet) (disk disk' : Disk Text)
      → IsFaithful codec
      → ((bytes : Bytes) → IsHash (ext.sha256 bytes))
      → length random.nonce ≡ 12
      → create_at ext codec path label password random disk ≡ ok (wallet, disk')
      → load_or_create_with_password ext codec path later_label password later disk'
        ≡ ok (wallet, disk')
  unfolding create_at new
  created_again path label later_label password random later wallet disk disk' faithful sized size
        e =
      let made = fresh_wallet path label password random in
      let same : (made, save ext codec random made disk) ≡ (wallet, disk') = cc in
      subst
        (λ (p : Wallet × Disk Text).
          load_or_create_with_password ext codec path later_label password later p.1 ≡ ok p)
        same (load-save path later_label random later made disk faithful sized size refl)

  -- Whatever the disk held, a call that gives a wallet leaves a disk on which the next call with
  -- the same path and password gives that wallet again, whatever label is asked for and whatever
  -- the random numbers, and writes nothing: be it that the file was a wallet's, that there was
  -- none, or that its text was no wallet's; if every text is decoded to what was encoded, a digest
  -- is 32 bytes and the nonce of the first call is 12.
  pub load_again :
      (path label later_label : Bytes) (password : Option Bytes) (random later : Random)
      (wallet : Wallet) (disk disk' : Disk Text)
      → IsFaithful codec
      → ((bytes : Bytes) → IsHash (ext.sha256 bytes))
      → length random.nonce ≡ 12
      → load_or_create_with_password ext codec path label password random disk ≡ ok (wallet, disk')
      → load_or_create_with_password ext codec path later_label password later disk'
        ≡ ok (wallet, disk')
  unfolding load_or_create_with_password
  load_again path label later_label password random later wallet disk disk' faithful sized size e =
      let again =
        created_again path label later_label password random later wallet disk disk' faithful sized
          size in
      elim (Option-cases (get disk path)) [
        | inl nothing ↦ again (rw (load_or_create_with_password, nothing) at e)
        | inr (text, found) ↦ elim (Option-cases (codec.parse text)) [
          | inl broken ↦ again (rw (load_or_create_with_password, found, broken) at e)
          | inr (wf, parsed) ↦ elim (Result-cases (from_wallet_file ext codec wf password)) [
            | inl (opened, valid) ↦
                let first = (rw (load_or_create_with_password, found, parsed, valid) at e) in
                let same : disk ≡ disk' = cc in
                rw⁻¹ same (
                  rw (load_or_create_with_password, found, parsed, valid)
                    (first ∙ ap (λ (d : Disk Text). ok (wallet, d)) (sym same)))
            | inr (x, failed) ↦
                let first = (rw (load_or_create_with_password, found, parsed, failed) at e) in
                absurd (cc)
          ]
        ]
      ]
