-- ===== src/Keyring/Transactions.antt =====
-- packages/keyring-proxy/src/index.ts: what is signed for a request, and what the user is shown of it.
use siwa.Base.{
  Bool, false, ◌||◌, Option, none, some, Result, ok, ◌>>=◌, if◌then◌else◌, is_some, or_else, String,
  ◌==◌,
}
use siwa.Base.Int.{ℤ, pos, Number}
use siwa.Base.Json.{Json, null, num, str, obj, Fields, field, end, get}
use siwa.Base.Str.{Str, text, str_eq}
use siwa.Keyring.{Crypto}
use siwa.Keyring.Serialize.{Value}
use siwa.Keyring.Values.{Coercions, truthy, nullish, parse_big_int, optional_number}
use siwa.Keyring.Wallet.{KeystoreJson, KeyringConfig, KeystoreFile, get_private_key}

pub data Fees : Type 0 where
  untyped : Fees
  eip1559 : (max_fee_per_gas max_priority_fee_per_gas : Option ℤ) → Fees
  legacy : (gas_price : Option ℤ) → Fees

pub record ViemTx : Type 0 where
  pub to : Option Json
  pub call_data : Option Json
  pub value : Option ℤ
  pub nonce : Option Number
  pub chain_id : Option Number
  pub gas : Option ℤ
  pub fees : Fees
  pub access_list : Option Json

pub record AuthRequest : Type 0 where
  pub address : Option Json
  pub chain_id : Json
  pub nonce : Json

-- viem's signing functions, of a message, of raw bytes, of a transaction and of an authorization
pub record Signing : Type 0 where
  pub sign_text : (message private_key : Str) → Result Str
  pub sign_raw : (message private_key : Str) → Result Str
  pub sign_transaction : ViemTx → (private_key : Str) → Result Str
  pub sign_authorization : AuthRequest → (private_key : Str) → Result Value

-- tx.type === 2 || tx.type === "eip1559" || tx.maxFeePerGas !== undefined
unfoldable pub is_eip1559 : Json → Bool
unfolding get text str_eq
is_eip1559 tx =
    let typed : Bool = elim (get tx "type") [
      | some (num (pos n)) ↦ n == 2
      | some (str s) ↦ str_eq s (text "eip1559")
      | _ ↦ false
    ] in
    typed || is_some (get tx "maxFeePerGas")

module _ (coerce : Coercions) where
  unfoldable pub fees_of : Json → Result Fees
  unfolding get is_eip1559
  fees_of tx =
      if is_eip1559 tx
      then (do
        max_fee ← parse_big_int coerce (get tx "maxFeePerGas")
        max_priority ← parse_big_int coerce (get tx "maxPriorityFeePerGas")
        ok (eip1559 max_fee max_priority))
      else if is_some (get tx "gasPrice")
      then (do price ← parse_big_int coerce (get tx "gasPrice"); ok (legacy price))
      else ok untyped

  unfoldable pub viem_tx : Json → Result ViemTx
  unfolding get fees_of
  viem_tx tx = do
    value ← parse_big_int coerce (get tx "value")
    gas ← parse_big_int coerce (nullish (get tx "gasLimit") (get tx "gas"))
    fees ← fees_of tx
    ok (record {
      to = get tx "to";
      call_data = get tx "data";
      value = value;
      nonce = optional_number coerce (get tx "nonce");
      chain_id = optional_number coerce (get tx "chainId");
      gas = gas;
      fees = fees;
      access_list = if truthy (get tx "accessList") then get tx "accessList" else none;
    })

-- A member of an object literal; one that is undefined is left out by JSON.stringify.
unfoldable pub member : String → Option Json → Fields → Fields
member key none rest = rest
member key (some v) rest = field key v rest

-- The payloads that are put before the user.
unfoldable pub message_payload : Str → Json
message_payload message = obj (field "message" (str message) end)

unfoldable pub transaction_payload : Json → Json
unfolding get member
transaction_payload tx = obj (
    member "to" (get tx "to") (
      member "value" (get tx "value") (
        member "data" (get tx "data") (
          member "gasLimit" (nullish (get tx "gasLimit") (get tx "gas")) (
            member "maxFeePerGas" (get tx "maxFeePerGas") (
              member "maxPriorityFeePerGas" (get tx "maxPriorityFeePerGas")
                (member "gasPrice" (get tx "gasPrice") (member "nonce" (get tx "nonce") end))))))))

unfoldable pub authorization_payload : Json → Json
unfolding get member
authorization_payload auth = obj (
    member "address" (get auth "address")
      (member "chainId" (get auth "chainId") (member "nonce" (get auth "nonce") end)))

-- v ? Number(v) : undefined
unfoldable pub shown_chain : Coercions → Option Json → Option Number
shown_chain coerce none = none
shown_chain coerce (some v) = if truthy (some v) then some (coerce.to_number v) else none

-- { address: auth.address, chainId: auth.chainId || 1, nonce: auth.nonce ?? 0 }
unfoldable pub auth_request : Json → AuthRequest
unfolding get
auth_request auth = record {
  address = get auth "address";
  chain_id = if truthy (get auth "chainId") then or_else (get auth "chainId") null else num (pos 1);
  nonce = or_else (nullish (get auth "nonce") none) (num (pos 0));
}

pub record SignResult : Type 0 where
  pub signature : Str
  pub address : Str

module _ (c : Crypto) (json : KeystoreJson) (config : KeyringConfig) (signing : Signing) where
  unfoldable pub sign_message_internal : Str → Bool → KeystoreFile → Result SignResult
  sign_message_internal message raw file = do
    private_key ← get_private_key c json config file
    address ← c.address_of private_key
    signature ←
        if raw then signing.sign_raw message private_key else signing.sign_text message private_key
    ok (record { signature = signature; address = address })

  unfoldable pub sign_transaction_internal : Coercions → Json → KeystoreFile → Result SignResult
  unfolding viem_tx
  sign_transaction_internal coerce tx file = do
    private_key ← get_private_key c json config file
    address ← c.address_of private_key
    transaction ← viem_tx coerce tx
    signature ← signing.sign_transaction transaction private_key
    ok (record { signature = signature; address = address })

  unfoldable pub sign_authorization_internal : Json → KeystoreFile → Result Value
  unfolding auth_request
  sign_authorization_internal auth file = do
    private_key ← get_private_key c json config file
    address ← c.address_of private_key
    signing.sign_authorization (auth_request auth) private_key
