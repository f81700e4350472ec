-- ===== src/Erc8128/Agent.antt =====
-- packages/siwa/src/erc8128.ts: the agent's side. The signer, the solver of challenges and the
-- library's `signRequest` are parameters, each a step on one state `S`. A request is its headers and its
-- other parts, which these functions pass on; the value of a header is kept as it is given.
pub mod Kept
pub mod Retry
use siwa.Base.{
  ℕ, ◌+◌, ◌==◌, Bool, true, false, Option, none, some, List, [], ◌∷◌, ◌++◌, if◌then◌else◌, leb,
  ◌&&◌, map, Result, ok, throws, String,
}
use siwa.Base.JsMap.{JsMap, get, set}
use siwa.Base.Json
use siwa.Base.Json.{Json, null, str, obj, field, end, num}
use siwa.Base.Int.{pos}
use siwa.Base.Numbers.Hex.{to_hex_string}
use siwa.Base.Str.{Str, text}
use siwa.Captcha.Submission.{pack_captcha_response, truthy_payload}
use siwa.Erc8128.Steps.{
  Step, Exit, goes, returns, raises, ◌>>=◌, pass, stop, lift, stateful, require,
}
use siwa.Runtime.{Runtime}

-- `Headers` compares names in lower case.
unfoldable pub lower_unit : ℕ → ℕ
lower_unit c = if leb b'A' c && leb c b'Z' then c + 32 else c

unfoldable pub lower : Str → Str
unfolding lower_unit
lower [] = []
lower (c ∷ s) = lower_unit c ∷ lower s

abbrev pub Headers : Type 0
Headers = JsMap Str

unfoldable pub set_header : Str → Str → Headers → Headers
unfolding lower set
set_header name value headers = set (lower name) value headers

unfoldable pub get_header : Str → Headers → Option Str
unfolding lower get
get_header name headers = get (lower name) headers

unfoldable pub receipt_header : Str
unfolding text
receipt_header = text "X-SIWA-Receipt"

unfoldable pub challenge_response_header : Str
unfolding text
challenge_response_header = text "X-SIWA-Challenge-Response"

pub record Outgoing (P : Type 0) : Type 0 where
  pub parts : P
  pub headers : Headers

pub record Signer (S : Type 0) : Type 0 where
  pub get_address : S → S × Result Str
  pub sign_message : Str → S → S × Result Str
  pub sign_raw_message : Option (Str → S → S × Result Str)

pub record EthHttpSigner (S : Type 0) : Type 0 where
  pub address : Str
  pub chain_id : ℕ
  pub sign_message : List ℕ → S → S × Result Str

-- A response: its status, and what `json()` gives of its body.
pub record Response : Type 0 where
  pub status : ℕ
  pub body : Result Json

-- `{ retry: false }`
pub data NoRetry : Type 0 where
  no_retry : NoRetry

module _ {S : Type 0} where
  unfoldable pub sign_bytes : Signer S → List ℕ → S → S × Result Str
  unfolding text to_hex_string
  sign_bytes signer message = elim (signer.sign_raw_message) [
    | none ↦ signer.sign_message (text "0x" ++ to_hex_string message)
    | some sign ↦ sign (text "0x" ++ to_hex_string message)
  ]

  unfoldable pub signer_at : Signer S → ℕ → Str → EthHttpSigner S
  unfolding sign_bytes
  signer_at signer chain_id address = record {
    address = address;
    chain_id = chain_id;
    sign_message = sign_bytes signer;
  }

  unfoldable pub create_erc8128_signer :
      {E : Type 0} → Signer S → ℕ → (signer_address : Option Str) → Step S E (EthHttpSigner S)
  unfolding signer_at
  create_erc8128_signer signer chain_id (some address) = pass (signer_at signer chain_id address)
  create_erc8128_signer signer chain_id none =
      stateful signer.get_address >>= λ address. pass (signer_at signer chain_id address)

module _ {P : Type 0} where
  unfoldable pub attach_receipt : Outgoing P → Str → Outgoing P
  unfolding set_header receipt_header
  attach_receipt request receipt = record request {
    headers = set_header receipt_header receipt request.headers;
  }

-- The library's `signRequest`, with the components that it binds besides its own.
abbrev pub SignRequest : Type 0 → Type 0 → Type 0
SignRequest S P = Outgoing P → EthHttpSigner S → List Str → S → S × Result (Outgoing P)

-- packCaptchaResponse on a token that came from JSON
unfoldable pub pack_token : Runtime → ℕ → Json → Str → Str
unfolding pack_captcha_response
pack_token r now (str token) t = pack_captcha_response r now token t
pack_token r now token t = r.encode (
    obj (
      field "challengeToken" token
        (field "solution" (obj (field "text" (str t) (field "solvedAt" (num (pos now)) end))) end)))

unfoldable pub required_pair : (required challenge token : Option Json) → Option (Json × Json)
required_pair (some required) (some challenge) (some token) = some (challenge, token)
required_pair required challenge token = none

-- The challenge and its token, where the body asks for a solution; a member of `null` throws.
unfoldable pub challenge_in : Json → Result (Option (Json × Json))
unfolding text truthy_payload required_pair
challenge_in null = throws (text "Cannot read properties of null (reading 'captchaRequired')")
challenge_in body = ok (
    required_pair (truthy_payload (Json.get body "captchaRequired"))
      (truthy_payload (Json.get body "challenge"))
      (truthy_payload (Json.get body "challengeToken")))

module _ {S P : Type 0} (sign_request : SignRequest S P) (signer : Signer S) (chain_id : ℕ)
    (signer_address : Option Str) where
  unfoldable pub signed_with : {E : Type 0} → Outgoing P → List Str → Step S E (Outgoing P)
  unfolding create_erc8128_signer
  signed_with request components =
      create_erc8128_signer signer chain_id signer_address >>= λ eth_signer.
      stateful (sign_request request eth_signer components)

  unfoldable pub sign_authenticated_request :
      {E : Type 0} → Outgoing P → Str → Step S E (Outgoing P)
  unfolding attach_receipt signed_with receipt_header
  sign_authenticated_request request receipt =
      signed_with (attach_receipt request receipt) (receipt_header ∷ [])

  module _ (r : Runtime) (now : ℕ) (solver : Json → S → S × Result Str) where
    unfoldable pub with_solution : Outgoing P → Str → Str → Outgoing P
    unfolding set_header receipt_header challenge_response_header
    with_solution request receipt packed = record request {
      headers =
          set_header challenge_response_header packed
            (set_header receipt_header receipt request.headers);
    }

    unfoldable pub retry_challenge :
        Outgoing P → Str → Option (Json × Json) → Step S NoRetry (Outgoing P)
    unfolding with_solution pack_token signed_with receipt_header challenge_response_header
    retry_challenge request receipt none = stop no_retry
    retry_challenge request receipt (some (challenge, token)) =
        stateful (solver challenge) >>= λ solution.
        signed_with (with_solution request receipt (pack_token r now token solution))
          (receipt_header ∷ challenge_response_header ∷ [])

    unfoldable pub retry_body : Outgoing P → Str → Result Json → Step S NoRetry (Outgoing P)
    unfolding challenge_in retry_challenge
    retry_body request receipt (throws e) = stop no_retry
    retry_body request receipt (ok body) =
        lift (challenge_in body) >>= λ found. retry_challenge request receipt found

    unfoldable pub retry_with_captcha : Response → Outgoing P → Str → Step S NoRetry (Outgoing P)
    unfolding retry_body
    retry_with_captcha response request receipt =
        require (response.status == 401) no_retry >>= λ u. retry_body request receipt response.body
