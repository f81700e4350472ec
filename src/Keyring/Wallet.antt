-- ===== src/Keyring/Wallet.antt =====
-- packages/keyring-proxy/src/index.ts: the operations on the wallet. The keystore is a file; the random
-- bytes of a new wallet, JSON and viem's signing are parameters.
pub mod Lifecycle
use siwa.Base.{
  ℕ, Bool, true, false, not, Option, none, some, List, [], ◌∷◌, ◌++◌, Result, ok, throws, ◌>>=◌,
  String, if◌then◌else◌, is_some, or_else,
}
use siwa.Base.Str.{Str, text}
use siwa.Token.{is_empty}
use siwa.Keyring.{Bytes, Crypto, EncryptedKeystore, encrypt_private_key, decrypt_private_key}

pub data KeystoreBackend : Type 0 where
  encrypted_file env : KeystoreBackend

pub record KeyringConfig : Type 0 where
  pub secret : Str
  pub inner_backend : KeystoreBackend
  pub keystore_password : Str
  pub agent_private_key : Str

-- JSON.stringify(keystore, null, 2), and JSON.parse at the type it is declared with
pub record KeystoreJson : Type 0 where
  pub stringify : EncryptedKeystore → Str
  pub parse : Str → Result (Option EncryptedKeystore)

-- generatePrivateKey() and the two calls of randomBytes
pub record Randomness : Type 0 where
  pub private_key : Str
  pub salt : Bytes
  pub iv : Bytes

pub record WalletInfo : Type 0 where
  pub address : Str
  pub backend : KeystoreBackend

-- The content of the file at KEYSTORE_PATH.
abbrev pub KeystoreFile : Type 0
KeystoreFile = Option Str

module _ (c : Crypto) (json : KeystoreJson) (config : KeyringConfig) where
  unfoldable pub load_keystore : KeystoreFile → Result (Option EncryptedKeystore)
  load_keystore none = ok none
  load_keystore (some content) = json.parse content

  unfoldable pub save_keystore : EncryptedKeystore → KeystoreFile
  save_keystore keystore = some (json.stringify keystore)

  unfoldable pub present_keystore : Option EncryptedKeystore → Result EncryptedKeystore
  unfolding text
  present_keystore none = throws (text "No wallet found. Call /create-wallet first.")
  present_keystore (some keystore) = ok keystore

  unfoldable pub get_private_key : KeystoreFile → Result Str
  unfolding load_keystore present_keystore
  get_private_key file = elim config.inner_backend [
    | env ↦ ok config.agent_private_key
    | encrypted_file ↦ do
      loaded ← load_keystore file
      keystore ← present_keystore loaded
      decrypt_private_key c keystore config.keystore_password
  ]

  unfoldable pub stored : KeystoreFile → Result EncryptedKeystore → KeystoreFile × Result WalletInfo
  unfolding save_keystore
  stored file (throws e) = (file, throws e)
  stored file (ok keystore) = (
    save_keystore keystore,
    ok (record { address = b'0' ∷ b'x' ∷ keystore.address; backend = encrypted_file }),
  )

  unfoldable pub created :
      Randomness
      → KeystoreFile
      → Result (Option EncryptedKeystore)
      → KeystoreFile × Result WalletInfo
  unfolding text stored
  created random file (throws e) = (file, throws e)
  created random file (ok (some existing)) =
      (file, throws (text "Wallet already exists. Use /get-address to retrieve the address."))
  created random file (ok none) =
      stored file
        (encrypt_private_key c random.private_key config.keystore_password random.salt random.iv)

  unfoldable pub create_wallet_internal :
      Randomness → KeystoreFile → KeystoreFile × Result WalletInfo
  unfolding created load_keystore
  create_wallet_internal random file = elim config.inner_backend [
    | env ↦ (
      file,
      (do
        address ← c.address_of config.agent_private_key
        ok (record { address = address; backend = env })),
    )
    | encrypted_file ↦ created random file (load_keystore file)
  ]

  unfoldable pub has_wallet_internal : KeystoreFile → Result Bool
  unfolding load_keystore
  has_wallet_internal file = elim config.inner_backend [
    | env ↦ ok (not (is_empty config.agent_private_key))
    | encrypted_file ↦ do loaded ← load_keystore file; ok (is_some loaded)
  ]

  unfoldable pub get_address_internal : KeystoreFile → Result Str
  unfolding load_keystore present_keystore
  get_address_internal file = elim config.inner_backend [
    | env ↦ c.address_of config.agent_private_key
    | encrypted_file ↦ do
      loaded ← load_keystore file
      keystore ← present_keystore loaded
      ok (b'0' ∷ b'x' ∷ keystore.address)
  ]
