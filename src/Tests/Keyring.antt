-- ===== src/Tests/Keyring.antt =====
-- A keyring proxy with a key, asked to sign.
use siwa.Base.{
  ℕ, ◌<◌, Bool, true, false, some, none, Option, List, [], ◌∷◌, Result, ok, throws, ◌≡◌, ◌⊎◌, refl,
  arith, All,
}
use siwa.Base.Int.{int, pos}
use siwa.Base.Json.{Json, obj, field, end, str, num, null, bool}
use siwa.Base.Numbers.Hex.{to_hex_string, hex_digit}
use siwa.Base.Str.{text, str_eq, includes, drop}
use siwa.Keyring.{
  Crypto, CryptoLaws, EncryptedKeystore, encrypt_private_key, derive_key, seal, keystore_of,
}
use siwa.Keyring.Approval.{
  responded, operation_text, is_tfa_required, require_tfa_approval, request_tfa_approval,
  approval_exit, read_response,
}
use siwa.Keyring.Endpoints.{
  sign_transaction_endpoint, transaction_steps, body_member, member_of, approve, wallet_address,
  serve,
}
use siwa.Keyring.Endpoints.Entry.{IsSigned, IsHarmless, SeparatesHealth, serve-unsigned}
use siwa.Keyring.Endpoints.Guarded.{IsSignedTransaction, sign_transaction_endpoint_sound}
use siwa.Keyring.Endpoints.Shown.{viem_tx-access_list}
use siwa.Keyring.Server.{
  Request, Proxy, signed, automatic, Services, audit, finish, required, approved_exit, read_file,
}
use siwa.Keyring.Transactions.{
  SignResult, ViemTx, untyped, viem_tx, fees_of, is_eip1559, transaction_payload, shown_chain,
  sign_transaction_internal,
}
use siwa.Keyring.Values.{parse_big_int, optional_number, truthy_json}
use siwa.Keyring.Wallet.{
  KeyringConfig, KeystoreJson, WalletInfo, Randomness, env, encrypted_file, get_private_key,
  get_address_internal, create_wallet_internal, created, stored, save_keystore, load_keystore,
}
use siwa.Keyring.Wallet.Lifecycle.{IsUsable, create_wallet_internal-IsUsable}

abbrev crypto : Crypto
crypto = record {
  scrypt = λ password salt n r p dk_len. ok (1 ∷ 2 ∷ []);
  sha256 = λ bytes. 7 ∷ [];
  ctr_encrypt = λ key iv plain. ok plain;
  ctr_decrypt = λ key iv cipher. ok cipher;
  address_of = λ key. ok (text "0xab");
  to_lower = λ s. s;
}

crypto-Laws : CryptoLaws crypto
crypto-Laws = record {
  decrypt-encrypt = λ key iv plain cipher e. ground arith;
  encrypt_bytes = λ key iv plain cipher h e. ground arith;
}

abbrev random : Randomness
random = record { private_key = b'0' ∷ b'x' ∷ to_hex_string (18 ∷ []); salt = 1 ∷ []; iv = 2 ∷ [] }

abbrev file_config : KeyringConfig
file_config = record {
  secret = text "s";
  inner_backend = encrypted_file;
  keystore_password = text "p";
  agent_private_key = [];
}

abbrev keystore : EncryptedKeystore
keystore = keystore_of crypto (text "0xab") (1 ∷ []) (2 ∷ []) (1 ∷ 2 ∷ []) (18 ∷ [])

abbrev json : KeystoreJson
json = record { stringify = λ k. text "{}"; parse = λ s. ok (some keystore) }

encryption :
    encrypt_private_key crypto random.private_key (text "p") random.salt random.iv ≡ ok keystore
unfolding encrypt_private_key seal derive_key to_hex_string hex_digit
    siwa.Base.Numbers.Hex.from_hex_string siwa.Base.Numbers.Hex.to_byte
    siwa.Base.Numbers.parse_int_16 drop
encryption = refl

reading :
    (k : EncryptedKeystore)
    → encrypt_private_key crypto random.private_key (text "p") random.salt random.iv ≡ ok k
    → json.parse (json.stringify k) ≡ ok (some k)
reading k e = ground (arith, encryption)

abbrev info : WalletInfo
info = record { address = b'0' ∷ b'x' ∷ keystore.address; backend = encrypted_file }

creation :
    create_wallet_internal crypto json file_config random none
    ≡ (save_keystore crypto json file_config keystore, ok info)
unfolding create_wallet_internal created stored load_keystore
creation = rw encryption refl

create_wallet_internal-IsUsable_example :
    IsUsable crypto json file_config
      (save_keystore crypto json file_config keystore)
      random.private_key
      info.address
unfolding load_keystore
create_wallet_internal-IsUsable_example =
    create_wallet_internal-IsUsable crypto json file_config crypto-Laws random (18 ∷ []) none
      (save_keystore crypto json file_config keystore) info reading refl refl refl (omega arith, tt)
      (omega arith, tt) (omega arith, tt) creation

abbrev proxy_config : KeyringConfig
proxy_config = record {
  secret = text "s";
  inner_backend = env;
  keystore_password = [];
  agent_private_key = text "0x12";
}

abbrev services : Services ℕ
services = record {
  crypto = crypto;
  json = json;
  config = proxy_config;
  signing = record {
    sign_text = λ message key. ok (text "0x01");
    sign_raw = λ message key. ok (text "0x02");
    sign_transaction = λ transaction key. ok (text "0x03");
    sign_authorization = λ auth key. throws [];
  };
  coerce = record { big_int = λ s. ok (pos 5); to_number = λ v. int (pos 8453) };
  tfa = record {
    tfa_enabled = true;
    tfa_server_url = some (text "http://tfa");
    tfa_secret = some (text "s");
    tfa_operations = text "sign-transaction" ∷ [];
  };
  tfa_server = record {
    request_id = λ w. (w, text "ab");
    post = λ request w. (w, responded 200 (ok (obj (field "approved" (bool true) end))));
    to_text = λ v. [];
  };
  hashing = record { hmac_hex = λ secret payload. text "00ff"; to_upper = λ s. s };
  matches = λ registered path. str_eq registered path;
  unhandled = λ req. record { status = 404; body = automatic (text "Cannot POST") };
}

abbrev tx : Json
tx = obj (field "to" (str (text "0xcd")) (field "value" (str (text "5")) end))

abbrev sign_request : Request
sign_request = record {
  method = text "POST";
  path = text "/sign-transaction";
  source_ip = text "10.0.0.1";
  timestamp = none;
  signature = none;
  raw_body = [];
  body = some (obj (field "tx" tx end));
}

abbrev proxy : Proxy ℕ
proxy = record { file = none; audit_log = []; world = 3 }

abbrev signature : SignResult
signature = record { signature = text "0x03"; address = text "0xab" }

signing_run :
    sign_transaction_endpoint services 9 sign_request proxy
    ≡ (audit 9 sign_request true none proxy, record { status = 200; body = signed signature })
unfolding sign_transaction_endpoint transaction_steps body_member member_of approve wallet_address
    finish required approved_exit read_file sign_transaction_internal viem_tx fees_of is_eip1559
    parse_big_int get_private_key get_address_internal require_tfa_approval is_tfa_required
    operation_text request_tfa_approval approval_exit read_response text str_eq includes
    siwa.Base.Json.get siwa.Base.Json.get_field optional_number truthy_json
signing_run = refl

sign_transaction_endpoint_sound_example : IsSignedTransaction services sign_request proxy signature
sign_transaction_endpoint_sound_example =
    sign_transaction_endpoint_sound services 9 sign_request proxy
      (audit 9 sign_request true none proxy) signature signing_run

health_separate : SeparatesHealth services
unfolding str_eq text
health_separate = (refl, (refl, (refl, (refl, (refl, (refl, tt))))))

serve-unsigned_example :
    IsSigned services 9 sign_request
    ⊎ IsHarmless services sign_request proxy (serve services 9 random sign_request proxy)
serve-unsigned_example = serve-unsigned services 9 random sign_request proxy health_separate

abbrev converted : ViemTx
converted = record {
  to = some (str (text "0xcd"));
  call_data = none;
  value = some (pos 5);
  nonce = none;
  chain_id = none;
  gas = none;
  fees = untyped;
  access_list = none;
}

conversion : viem_tx services.coerce tx ≡ ok converted
unfolding viem_tx fees_of is_eip1559 parse_big_int optional_number siwa.Base.Json.get
    siwa.Base.Json.get_field truthy_json
conversion = refl

viem_tx-access_list_example :
    let with_list = obj (
      field "accessList"
        (bool true)
        (field "to" (str (text "0xcd")) (field "value" (str (text "5")) end))) in
    (viem_tx services.coerce with_list ≡ ok (record converted { access_list = some (bool true) }))
    × (transaction_payload with_list ≡ transaction_payload tx)
    × (shown_chain services.coerce (siwa.Base.Json.get with_list "chainId")
        ≡ shown_chain services.coerce (siwa.Base.Json.get tx "chainId"))
unfolding truthy_json
viem_tx-access_list_example =
    viem_tx-access_list services.coerce
      (field "to" (str (text "0xcd")) (field "value" (str (text "5")) end)) (bool true) converted
      refl conversion
