-- ===== src/Keyring.antt =====
-- packages/keyring-proxy/src/index.ts: the encrypted keystore. scrypt, SHA-256, AES in counter mode,
-- Ethereum accounts and `TextEncoder` are parameters, as are the bytes of `randomBytes`.
pub mod RoundTrip
pub mod Wallet
pub mod Values
pub mod Transactions
pub mod Approval
pub mod Refusals
pub mod Serialize
pub mod Server
pub mod Endpoints
use siwa.Base.{
  zero, suc, ℕ, ◌+◌, List, [], ◌∷◌, ◌++◌, Result, ok, throws, ◌>>=◌, if◌then◌else◌, not, String,
  ◌≡◌, All, ◌<◌,
}
use siwa.Base.Numbers.Hex.{to_hex_string, from_hex_string}
use siwa.Base.Str.{Str, text, str_eq, drop}

abbrev pub Bytes : Type 0
Bytes = List ℕ

pub record Kdfparams : Type 0 where
  pub n : ℕ
  pub r : ℕ
  pub p : ℕ
  pub dklen : ℕ
  pub salt : Str

pub record CryptoSection : Type 0 where
  pub cipher : Str
  pub ciphertext : Str
  pub iv : Str
  pub kdf : Str
  pub kdfparams : Kdfparams
  pub mac : Str

pub record EncryptedKeystore : Type 0 where
  pub version : ℕ
  pub address : Str
  pub crypto : CryptoSection

pub record Crypto : Type 0 where
  -- scrypt(new TextEncoder().encode(password), salt, { N, r, p, dkLen })
  pub scrypt : (password : Str) → (salt : Bytes) → (n r p dk_len : ℕ) → Result Bytes
  pub sha256 : Bytes → Bytes
  -- ctr(key, iv).encrypt(data) and .decrypt(data)
  pub ctr_encrypt : (key iv plain : Bytes) → Result Bytes
  pub ctr_decrypt : (key iv cipher : Bytes) → Result Bytes
  -- privateKeyToAccount(privateKey).address
  pub address_of : Str → Result Str
  pub to_lower : Str → Str

-- Counter mode undoes itself under the same key and counter, and makes bytes of bytes.
pub record CryptoLaws (c : Crypto) : Type 0 where
  pub decrypt-encrypt :
      (key iv plain cipher : Bytes)
      → c.ctr_encrypt key iv plain ≡ ok cipher
      → c.ctr_decrypt key iv cipher ≡ ok plain
  pub encrypt_bytes :
      (key iv plain cipher : Bytes)
      → All (λ b. b < 256) plain
      → c.ctr_encrypt key iv plain ≡ ok cipher
      → All (λ b. b < 256) cipher

abbrev pub scrypt_n : ℕ
scrypt_n = 16384

abbrev pub scrypt_r : ℕ
scrypt_r = 8

abbrev pub scrypt_p : ℕ
scrypt_p = 1

-- bytes.subarray(a, b) is `take (b - a) (drop a bytes)`.
unfoldable pub take : ℕ → Bytes → Bytes
take zero bs = []
take (suc n) [] = []
take (suc n) (b ∷ bs) = b ∷ take n bs

module _ (c : Crypto) where
  unfoldable pub derive_key : Str → Bytes → Result Bytes
  derive_key password salt = c.scrypt password salt scrypt_n scrypt_r scrypt_p 32

  -- sha256(derivedKey[16:32] + ciphertext)
  unfoldable pub mac_of : Bytes → Bytes → Str
  unfolding drop take
  mac_of derived_key ciphertext =
      to_hex_string (c.sha256 (take 16 (drop 16 derived_key) ++ ciphertext))

  unfoldable pub keystore_of :
      (address : Str) (salt iv derived_key ciphertext : Bytes) → EncryptedKeystore
  unfolding text
  keystore_of address salt iv derived_key ciphertext = record {
    version = 3;
    address = drop 2 (c.to_lower address);
    crypto = record {
      cipher = text "aes-128-ctr";
      ciphertext = to_hex_string ciphertext;
      iv = to_hex_string iv;
      kdf = text "scrypt";
      kdfparams = record {
        n = scrypt_n;
        r = scrypt_r;
        p = scrypt_p;
        dklen = 32;
        salt = to_hex_string salt;
      };
      mac = mac_of derived_key ciphertext;
    };
  }

  unfoldable pub seal :
      (private_key : Str) (salt iv : Bytes) (address : Str) (derived_key : Bytes)
      → Result EncryptedKeystore
  unfolding keystore_of
  seal private_key salt iv address derived_key = do
    ciphertext ← c.ctr_encrypt (take 16 derived_key) iv (from_hex_string (drop 2 private_key))
    ok (keystore_of address salt iv derived_key ciphertext)

  -- `salt` and `iv` are the random bytes.
  unfoldable pub encrypt_private_key :
      (private_key password : Str) (salt iv : Bytes) → Result EncryptedKeystore
  unfolding seal
  encrypt_private_key private_key password salt iv = do
    address ← c.address_of private_key
    derived_key ← derive_key password salt
    seal private_key salt iv address derived_key

  checked_mac : Str → Str → Result Bytes → Result Bytes
  unfolding text str_eq
  checked_mac mac expected later =
      if not (str_eq mac expected)
      then throws (text "Invalid password or corrupted keystore")
      else later

  unfoldable pub decrypt_private_key : EncryptedKeystore → Str → Result Str
  unfolding mac_of drop take checked_mac
  decrypt_private_key keystore password =
      let section : CryptoSection = keystore.crypto in
      let params : Kdfparams = section.kdfparams in
      let ciphertext : Bytes = from_hex_string section.ciphertext in
      do
        derived_key ← c.scrypt password (from_hex_string params.salt) params.n params.r params.p 32
        plain ←
            checked_mac (mac_of derived_key ciphertext) section.mac
              (c.ctr_decrypt (take 16 derived_key) (from_hex_string section.iv) ciphertext)
        ok (b'0' ∷ b'x' ∷ to_hex_string plain)
