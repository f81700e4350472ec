-- ===== src/Keyring/RoundTrip.antt =====
-- The keystore gives back the key that was put into it, and nothing under a wrong code.
use siwa.Base.{◌<◌, ◌∷◌, ok, All, ◌≡◌, refl, arith, ap, sym, subst, ◌∙◌, >>=-ok_inv, ◌>>=◌}
use siwa.Base.Numbers.Hex.{to_hex_string, from_hex_string, from_hex_string-to_hex_string}
use siwa.Base.Str.{Str, drop}
use siwa.Base.Str.Laws.{str_eq_refl}
use siwa.Keyring.{
  Bytes, Crypto, CryptoLaws, EncryptedKeystore, take, derive_key, mac_of, encrypt_private_key,
  decrypt_private_key, checked_mac, seal, keystore_of,
}

module _ (c : Crypto) where
  -- What an encryption has computed.
  pub encrypt_private_key_inv :
      (private_key password : Str) (salt iv : Bytes) (keystore : EncryptedKeystore)
      → encrypt_private_key c private_key password salt iv ≡ ok keystore
      → (address : Str) × (derived : Bytes) × (ciphertext : Bytes) × (derive_key c password salt
          ≡ ok derived)
        × (c.ctr_encrypt (take 16 derived) iv (from_hex_string (drop 2 private_key))
            ≡ ok ciphertext)
        × (keystore ≡ keystore_of c address salt iv derived ciphertext)
  unfolding encrypt_private_key seal
  encrypt_private_key_inv private_key password salt iv keystore e =
      let (address, ea, e1) =
        >>=-ok_inv (c.address_of private_key)
          (λ a. do d ← derive_key c password salt; seal c private_key salt iv a d) e in
      let (derived, ed, e2) =
        >>=-ok_inv (derive_key c password salt) (seal c private_key salt iv address) e1 in
      let (ciphertext, ec, e3) =
        >>=-ok_inv (c.ctr_encrypt (take 16 derived) iv (from_hex_string (drop 2 private_key)))
          (λ t. ok (keystore_of c address salt iv derived t)) e2 in
      (address, derived, ciphertext, ed, ec, ground arith)

  decrypt-keystore_of :
      (address password : Str) (salt iv derived ciphertext plain : Bytes)
      → from_hex_string (to_hex_string salt) ≡ salt
      → from_hex_string (to_hex_string iv) ≡ iv
      → from_hex_string (to_hex_string ciphertext) ≡ ciphertext
      → derive_key c password salt ≡ ok derived
      → c.ctr_decrypt (take 16 derived) iv ciphertext ≡ ok plain
      → decrypt_private_key c (keystore_of c address salt iv derived ciphertext) password
        ≡ ok (b'0' ∷ b'x' ∷ to_hex_string plain)
  unfolding decrypt_private_key keystore_of derive_key checked_mac mac_of
  decrypt-keystore_of address password salt iv derived ciphertext plain hs hi hc hd he =
      rw hs (rw hi (rw hc (rw hd (rw (str_eq_refl (mac_of c derived ciphertext)) (rw he refl)))))

module _ (c : Crypto) (laws : CryptoLaws c) where
  -- A key of bytes that is encrypted under a password is decrypted under the same password, whatever
  -- the bytes of the salt and of the counter.
  pub decrypt-encrypt_private_key :
      (key : Bytes) (password : Str) (salt iv : Bytes) (keystore : EncryptedKeystore)
      → All (λ b. b < 256) key
      → All (λ b. b < 256) salt
      → All (λ b. b < 256) iv
      → encrypt_private_key c (b'0' ∷ b'x' ∷ to_hex_string key) password salt iv ≡ ok keystore
      → decrypt_private_key c keystore password ≡ ok (b'0' ∷ b'x' ∷ to_hex_string key)
  unfolding drop
  decrypt-encrypt_private_key key password salt iv keystore hk hs hi e =
      let (address, derived, ciphertext, ed, ec, same) =
        encrypt_private_key_inv c (b'0' ∷ b'x' ∷ to_hex_string key) password salt iv keystore e in
      let plain =
        laws.decrypt-encrypt (take 16 derived) iv (from_hex_string (to_hex_string key)) ciphertext
          ec in
      let same_key : from_hex_string (to_hex_string key) ≡ key =
        from_hex_string-to_hex_string key hk in
      rw same (
        decrypt-keystore_of c address password salt iv derived ciphertext key
          (from_hex_string-to_hex_string salt hs) (from_hex_string-to_hex_string iv hi)
          (from_hex_string-to_hex_string ciphertext (
            laws.encrypt_bytes _ iv _ ciphertext (subst (All (λ b. b < 256)) (sym same_key) hk) ec))
          ed (plain ∙ ap ok same_key))
