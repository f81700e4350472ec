-- ===== src/Erc8128.antt =====
-- packages/siwa/src/erc8128.ts: `verifyAuthenticatedRequest` and the replay store. The verification of
-- the HTTP signature is @slicekit/erc8128's `verifyRequest`, a parameter, as are viem's client and the
-- caller's captcha policy; each is a step on one state `S`, which holds the nonce store, the captcha
-- store and the source of random numbers. An early return is `returns`, an exception `raises`.
pub mod Steps
pub mod Checks
pub mod Replay
pub mod Agent
use siwa.Base.{
  ℕ, ◌+◌, ◌*◌, Bool, true, false, ◌&&◌, ◌||◌, not, Option, none, some, List, [], ◌∷◌, ◌++◌,
  if◌then◌else◌, or_else, ltb, is_some, Result, ok, throws, String, any, map,
}
use siwa.Base.Int.{Number, nan, int, ℤ}
use siwa.Base.Json.{Json, null, num, str, get}
use siwa.Base.JsMap.{JsMap, has, set, retain}
use siwa.Base.Str.{Str, text, str_eq, join}
use siwa.Captcha.{
  CaptchaDifficulty, CaptchaChallenge, CaptchaOptions, Draw, create_captcha_challenge,
}
use siwa.Captcha.Solutions.{CaptchaVerificationResult, CaptchaVerifyOptions}
use siwa.Captcha.Submission.{truthy_payload, unpack_captcha_response, verify_submitted}
use siwa.Receipt.{SignerType, signer_type_text, verify_receipt}
use siwa.Registry.{PublicClient, big_int}
use siwa.Runtime.{Runtime}
use siwa.Verify.{registry_address}

-- The replay store: nonce → expiry
abbrev pub Seen : Type 0
Seen = JsMap ℕ

-- createMemoryNonceStore().consume
unfoldable pub consume_key : ℕ → Str → ℕ → Seen → Seen × Bool
consume_key now key ttl_seconds seen =
    let live = retain (λ expiry. not (ltb expiry now)) seen in
    if has key live then (live, false) else (set key (now + ttl_seconds * 1000) live, true)

-- `explicit || process.env.RECEIPT_SECRET || process.env.SIWA_SECRET`
abbrev pub or_else_text : Option Str → Option Str → Option Str
or_else_text none b = b
or_else_text (some []) b = b
or_else_text (some (c ∷ s)) b = some (c ∷ s)

present_secret : Option Str → Result Str
unfolding text
present_secret none = throws (
    text
      "Missing receipt secret: pass receiptSecret option, or set RECEIPT_SECRET / SIWA_SECRET env var")
present_secret (some []) = throws (
    text
      "Missing receipt secret: pass receiptSecret option, or set RECEIPT_SECRET / SIWA_SECRET env var")
present_secret (some (c ∷ s)) = ok (c ∷ s)

unfoldable pub resolve_receipt_secret :
    (explicit receipt_secret siwa_secret : Option Str) → Result Str
unfolding present_secret
resolve_receipt_secret explicit receipt_secret siwa_secret =
    present_secret (or_else_text explicit (or_else_text receipt_secret siwa_secret))

pub record Request : Type 0 where
  -- The values of X-SIWA-Receipt and X-SIWA-Challenge-Response
  pub receipt : Option Str
  pub challenge_response : Option Str

-- What `verifyRequest` gives: the signer's address, or a reason with a detail.
pub data VerifyResult : Type 0 where
  verified : Str → VerifyResult
  unverified : (reason : Str) (detail : Option Str) → VerifyResult

pub record SiwaAgent : Type 0 where
  pub address : Str
  pub agent_id : Option Json
  pub agent_registry : Option Json
  pub chain_id : Option Json
  pub signer_type : Option Json

-- The two forms of `{ valid: false, ... }`
pub data Rejection : Type 0 where
  refused : Str → Rejection
  captcha_required : CaptchaChallenge → Str → Rejection

pub data AuthResult : Type 0 where
  accepted : SiwaAgent → AuthResult
  rejected : Rejection → AuthResult

pub record VerifyOptions (S : Type 0) : Type 0 where
  pub receipt_secret : Str
  pub rpc_url : Option Str
  pub verify_onchain : Bool
  pub public_client : Option PublicClient
  pub allowed_signer_types : Option (List SignerType)
  pub captcha_policy :
      Option (Str → Option Json → Option Json → S → S × Result (Option CaptchaDifficulty))
  pub captcha_options : Option CaptchaOptions
  pub captcha_verify : CaptchaVerifyOptions S

-- The libraries: verifyRequest with the receipt header bound, viem's verifyMessage, and a client for a
-- URL.
pub record Libraries (S : Type 0) : Type 0 where
  pub verify_request : Request → (Str → Str → Str → Result Bool) → S → S × Result VerifyResult
  pub verify_message : (address message signature : Str) → Result Bool
  pub connect : Str → PublicClient
  pub below : ℕ → Draw S ℕ

-- `allowed?.length && !allowed.includes(signerType)`, negated
listed : Option Json → SignerType → Bool
unfolding str_eq signer_type_text
listed (some (str t)) signer = str_eq t (signer_type_text signer)
listed v signer = false

unfoldable pub type_allowed : Option (List SignerType) → Option Json → Bool
unfolding listed
type_allowed none signer = true
type_allowed (some []) signer = true
type_allowed (some (a ∷ allowed)) signer = any (listed signer) (a ∷ allowed)

-- The method `toLowerCase` or `split` of a property that ought to be a string.
unfoldable pub text_of : String → Option Json → Result Str
unfolding text
text_of method (some (str s)) = ok s
text_of method v =
    throws (text "Cannot read properties of undefined (reading '" ++ (text method ++ text "')"))

unfoldable pub given_header : Option Str → Option Str
given_header none = none
given_header (some []) = none
given_header (some (c ∷ s)) = some (c ∷ s)

-- BigInt(value)
unfoldable pub id_of : Runtime → Option Json → Result ℤ
unfolding text
id_of r none = throws (text "Cannot convert undefined to a BigInt")
id_of r (some null) = throws (text "Cannot convert null to a BigInt")
id_of r (some v) = big_int (r.to_number v)

unfoldable pub refuse : String → Rejection
unfolding text
refuse s = refused (text s)
