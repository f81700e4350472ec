-- ===== src/Keyring/Wallet/Lifecycle.antt =====
-- The life of a wallet in the encrypted keystore.
use siwa.Base.{◌<◌, none, some, ◌∷◌, Result, ok, throws, ◌≡◌, refl, arith, All, ap, sym, ◌∙◌}
use siwa.Base.Numbers.Hex.{to_hex_string}
use siwa.Base.Str.{Str, text}
use siwa.Keyring.{
  Bytes, Crypto, CryptoLaws, EncryptedKeystore, encrypt_private_key, decrypt_private_key,
}
use siwa.Keyring.RoundTrip.{decrypt-encrypt_private_key}
use siwa.Keyring.Wallet.{
  encrypted_file, KeyringConfig, KeystoreJson, Randomness, WalletInfo, KeystoreFile, load_keystore,
  save_keystore, present_keystore, stored, created, get_private_key, create_wallet_internal,
  get_address_internal,
}

module _ (c : Crypto) (json : KeystoreJson) (config : KeyringConfig) where
  -- The wallet of a new keystore is the one whose address was given out: its private key is the one that
  -- was generated, and creating a wallet again is refused and changes nothing.
  pub record IsUsable (file : KeystoreFile) (private_key : Str) (address : Str) : Type 0 where
    pub key : get_private_key c json config file ≡ ok private_key
    pub located : get_address_internal c json config file ≡ ok address
    pub kept :
        (random : Randomness)
        → create_wallet_internal c json config random file
          ≡ (file, throws (text "Wallet already exists. Use /get-address to retrieve the address."))

  saved-IsUsable :
      (keystore : EncryptedKeystore) (private_key : Str)
      → config.inner_backend ≡ encrypted_file
      → json.parse (json.stringify keystore) ≡ ok (some keystore)
      → decrypt_private_key c keystore config.keystore_password ≡ ok private_key
      → IsUsable (save_keystore c json config keystore) private_key (b'0' ∷ b'x' ∷ keystore.address)
  unfolding get_private_key get_address_internal create_wallet_internal load_keystore save_keystore
      present_keystore created
  saved-IsUsable keystore private_key backend read opened = record {
    key = rw backend (rw read opened);
    located = rw backend (rw read refl);
    kept = λ random. rw backend (rw read refl);
  }

  created-stored :
      (file file' : KeystoreFile) (made : Result EncryptedKeystore) (info : WalletInfo)
      → stored c json config file made ≡ (file', ok info)
      → (keystore : EncryptedKeystore) × (made ≡ ok keystore)
        × (file' ≡ save_keystore c json config keystore)
        × (info.address ≡ b'0' ∷ b'x' ∷ keystore.address)
  unfolding stored
  created-stored file file' (throws e) info h = absurd (cc)
  created-stored file file' (ok keystore) info h = (keystore, refl, ground arith, ground arith)

  -- A wallet that is created where there was none, with a generated key of bytes, gives back this key
  -- and the address that it answered with, and is not replaced by a second one. The keystore is read back
  -- from its JSON.
  pub create_wallet_internal-IsUsable :
      (laws : CryptoLaws c) (random : Randomness) (key : Bytes) (file file' : KeystoreFile)
      (info : WalletInfo)
      → ((keystore : EncryptedKeystore)
          → encrypt_private_key c random.private_key config.keystore_password random.salt random.iv
            ≡ ok keystore
          → json.parse (json.stringify keystore) ≡ ok (some keystore))
      → config.inner_backend ≡ encrypted_file
      → load_keystore c json config file ≡ ok none
      → random.private_key ≡ b'0' ∷ b'x' ∷ to_hex_string key
      → All (λ b. b < 256) key
      → All (λ b. b < 256) random.salt
      → All (λ b. b < 256) random.iv
      → create_wallet_internal c json config random file ≡ (file', ok info)
      → IsUsable file' random.private_key info.address
  unfolding create_wallet_internal created
  create_wallet_internal-IsUsable laws random key file file' info reads backend absent hex hk hs hi
        h =
      let sealed : Result EncryptedKeystore =
        encrypt_private_key c random.private_key config.keystore_password random.salt random.iv in
      let unfolded : create_wallet_internal c json config random file
          ≡ stored c json config file sealed =
        rw backend (rw absent refl) in
      let (keystore, made, saved, located) =
        created-stored file file' sealed info (sym unfolded ∙ h) in
      let opened =
        decrypt-encrypt_private_key c laws key config.keystore_password random.salt random.iv
          keystore hk hs hi
          (ap (λ k. encrypt_private_key c k config.keystore_password random.salt random.iv)
              (sym hex)
            ∙ made) in
      rw saved (
        rw located (
          saved-IsUsable keystore random.private_key backend (reads keystore made)
            (opened ∙ ap ok (sym hex))))
