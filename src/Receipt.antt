-- ===== src/Receipt.antt =====
-- packages/siwa/src/receipt.ts. Times are milliseconds since the epoch, read once per call and passed
-- in as `now`.
pub mod Validity
use siwa.Base.{
  ℕ, ◌+◌, ◌*◌, Bool, true, false, Option, none, some, if◌then◌else◌, or_else, Result, ok, throws,
  ◌>>=◌, String,
}
use siwa.Base.Int.{Number, nan, int, pos, ltb_ℤ}
use siwa.Base.Json.{Json, null, num, str, obj, Fields, end, field, get, json_number}
use siwa.Base.Str.{Str, text}
use siwa.Runtime.{Runtime}
use siwa.Token.{sign, checked_data}

-- signer/types.ts: SignerType
pub data SignerType : Type 0 where
  eoa sca : SignerType

pub data Verified : Type 0 where
  offline onchain : Verified

pub record ReceiptPayload : Type 0 where
  pub address : Str
  pub agent_id : Number
  pub agent_registry : Str
  pub chain_id : Number
  pub verified : Verified
  pub signer_type : Option SignerType

pub record ReceiptOptions : Type 0 where
  pub secret : Str
  pub ttl : Option ℕ

pub record ReceiptResult : Type 0 where
  pub receipt : Str
  pub expires_at : Str

abbrev pub default_receipt_ttl : ℕ
default_receipt_ttl = 30 * 60 * 1000

unfoldable pub signer_type_text : SignerType → Str
unfolding text
signer_type_text eoa = text "eoa"
signer_type_text sca = text "sca"

unfoldable pub verified_text : Verified → Str
unfolding text
verified_text offline = text "offline"
verified_text onchain = text "onchain"

-- An undefined property is left out of the JSON text.
signer_field : Option SignerType → Fields → Fields
unfolding signer_type_text
signer_field none fs = fs
signer_field (some s) fs = field "signerType" (str (signer_type_text s)) fs

-- `{ ...payload, iat, exp }`
unfoldable pub receipt_json : ReceiptPayload → ℕ → ℕ → Json
unfolding signer_field verified_text
receipt_json p iat exp = obj (
    field "address" (str p.address) (
      field "agentId" (json_number p.agent_id) (
        field "agentRegistry" (str p.agent_registry) (
          field "chainId" (json_number p.chain_id) (
            field "verified" (str (verified_text p.verified)) (
              signer_field p.signer_type
                (field "iat" (num (pos iat)) (field "exp" (num (pos exp)) end))))))))

-- `value < now`, where a missing value and NaN give false.
abbrev pub number_lt : Number → ℕ → Bool
number_lt nan now = false
number_lt (int z) now = ltb_ℤ z (pos now)

module _ (r : Runtime) where
  abbrev pub before : Option Json → ℕ → Bool
  before none now = false
  before (some v) now = number_lt (r.to_number v) now

  unfoldable pub create_receipt : ℕ → ReceiptPayload → ReceiptOptions → ReceiptResult
  unfolding sign receipt_json
  create_receipt now payload options =
      let exp = now + or_else options.ttl default_receipt_ttl in
      record {
        receipt = sign r (receipt_json payload now exp) options.secret;
        expires_at = r.to_iso_string exp;
      }

  pub check_expiry : ℕ → Json → Result (Option Json)
  check_expiry now null = throws (text "Cannot read properties of null (reading 'exp')")
  check_expiry now v = if before (get v "exp") now then ok none else ok (some v)

  pub decode_receipt : ℕ → Option Str → Result (Option Json)
  decode_receipt now none = ok none
  decode_receipt now (some encoded) = do v ← r.decode encoded; check_expiry now v

  unfoldable pub verify_receipt : ℕ → Str → Str → Result (Option Json)
  unfolding checked_data decode_receipt check_expiry text
  verify_receipt now receipt secret = do
    encoded ← checked_data r receipt secret
    decode_receipt now encoded
