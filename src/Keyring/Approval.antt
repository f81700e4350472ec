-- ===== src/Keyring/Approval.antt =====
-- packages/keyring-proxy/src/tfa-client.ts: asking the second-factor server. `fetch` and the random
-- request id are steps on a state `W` that is not looked into. Logging is left out.
use siwa.Base.{
  ℕ, Bool, false, ◌&&◌, ◌||◌, not, Option, none, some, List, [], ◌∷◌, ◌++◌, Result, ok, throws,
  if◌then◌else◌, leb, or_else,
}
use siwa.Base.Int.{Number}
use siwa.Base.Json.{Json, null, str, get}
use siwa.Base.Numbers.{show_nat}
use siwa.Base.Str.{Str, text, str_eq, includes, contains}
use siwa.Token.{is_empty}
use siwa.Approvals.{Operation, sign_message, sign_transaction, sign_authorization}
use siwa.Keyring.Values.{truthy, truthy_json}
use siwa.Erc8128.Steps.{Exit, goes, returns, raises}

pub record TfaConfig : Type 0 where
  pub tfa_enabled : Bool
  pub tfa_server_url : Option Str
  pub tfa_secret : Option Str
  pub tfa_operations : List Str

pub record TfaRequest : Type 0 where
  pub request_id : Str
  pub operation : Operation
  pub wallet : Str
  pub payload : Json
  pub chain_id : Option Number

-- A response with its status and the JSON of its body, or an exception with its name and message.
pub data Fetched : Type 0 where
  responded : (status : ℕ) → Result Json → Fetched
  fetch_failed : (name message : Str) → Fetched

-- randomUUID().slice(0, 8); the POST of a request; `${value}` of a JSON value
pub record TfaServer (W : Type 0) : Type 0 where
  pub request_id : W → W × Str
  pub post : TfaRequest → W → W × Fetched
  pub to_text : Json → Str

abbrev pub given : Option Str → Bool
given none = false
given (some s) = not (is_empty s)

-- The errors on which the proxy exits instead of starting.
unfoldable pub validate_tfa_config : TfaConfig → List Str
unfolding text
validate_tfa_config config =
    let url : List Str =
      if given config.tfa_server_url
      then []
      else text "TFA_SERVER_URL is required when TFA_ENABLED=true" ∷ [] in
    let secret : List Str =
      if given config.tfa_secret
      then []
      else text "TFA_SECRET is required when TFA_ENABLED=true" ∷ [] in
    if not config.tfa_enabled then [] else url ++ secret

unfoldable pub operation_text : Operation → Str
unfolding text
operation_text sign_message = text "sign-message"
operation_text sign_transaction = text "sign-transaction"
operation_text sign_authorization = text "sign-authorization"

unfoldable pub is_tfa_required : TfaConfig → Operation → Bool
unfolding operation_text includes
is_tfa_required config operation =
    config.tfa_enabled && includes config.tfa_operations (operation_text operation)

pub record TfaResponse : Type 0 where
  pub approved : Bool
  pub reason : Option Json

-- The catch of requestTFAApproval
unfoldable pub tfa_failure : (name message : Str) → Str
unfolding text str_eq contains
tfa_failure name message =
    if str_eq name (text "TimeoutError") || str_eq name (text "AbortError")
    then text "2FA verification failed: Request timeout"
    else if contains message (text "fetch failed") || contains message (text "ECONNREFUSED")
    then text "2FA verification failed: Server unreachable"
    else text "2FA verification failed: " ++ message

abbrev pub tfa_request :
    Operation → (wallet : Str) → (payload : Json) → Option Number → Str → TfaRequest
tfa_request operation wallet payload chain_id request_id = record {
  request_id = request_id;
  operation = operation;
  wallet = wallet;
  payload = payload;
  chain_id = chain_id;
}

-- The reason of a refusal; one that is neither a text nor falsy has no `includes`.
unfoldable pub refusal_status : Option Json → Exit (Str × ℕ) (Unit {0})
unfolding text contains
refusal_status none = returns (text "2FA rejected: User rejected the request", 403)
refusal_status (some (str [])) = returns (text "2FA rejected: User rejected the request", 403)
refusal_status (some (str (c ∷ s))) =
    returns
      (text "2FA rejected: " ++ (c ∷ s), if contains (c ∷ s) (text "Timeout") then 408 else 403)
refusal_status (some v) =
    if truthy_json v
    then raises (text "reason.includes is not a function")
    else returns (text "2FA rejected: User rejected the request", 403)

module _ {W : Type 0} (server : TfaServer W) where
  -- errorData.error || "Unknown error", where the body that is no JSON counts as {}
  unfoldable pub error_text : Result Json → Str
  unfolding text get
  error_text (throws e) = text "Unknown error"
  error_text (ok v) =
      if truthy (get v "error")
      then server.to_text (or_else (get v "error") null)
      else text "Unknown error"

  -- A body that is `null` has no members, so it is a TypeError, whose message is left out.
  unfoldable pub read_response : Fetched → Result TfaResponse
  unfolding text get tfa_failure error_text show_nat
  read_response (fetch_failed name message) = throws (tfa_failure name message)
  read_response (responded status (throws e)) =
      if leb 200 status && leb status 299
      then throws (tfa_failure (text "SyntaxError") e)
      else throws (
          tfa_failure (text "Error") (
            text "2FA server error: "
            ++ (show_nat status ++ (text " - " ++ error_text (throws e)))))
  read_response (responded status (ok null)) = throws (tfa_failure (text "TypeError") [])
  read_response (responded status (ok v)) =
      if leb 200 status && leb status 299
      then ok (record { approved = truthy (get v "approved"); reason = get v "reason" })
      else throws (
          tfa_failure (text "Error")
            (text "2FA server error: " ++ (show_nat status ++ (text " - " ++ error_text (ok v)))))

  abbrev pub read_posted : W × Fetched → W × Result TfaResponse
  read_posted (w, fetched) = (w, read_response fetched)

  unfoldable pub request_tfa_approval :
      Operation → (wallet : Str) → (payload : Json) → Option Number → W → W × Result TfaResponse
  request_tfa_approval operation wallet payload chain_id w =
      let (w', request_id) = server.request_id w in
      read_posted (server.post (tfa_request operation wallet payload chain_id request_id) w')

  unfoldable pub approval_exit : W × Result TfaResponse → W × Exit (Str × ℕ) (Unit {0})
  unfolding refusal_status
  approval_exit (w, throws e) = (w, raises e)
  approval_exit (w, ok response) =
      if response.approved then (w, goes tt) else (w, refusal_status response.reason)

  -- It goes on where the operation is approved or needs no approval; an error with a status hint is
  -- returned, any other raised.
  unfoldable pub require_tfa_approval :
      TfaConfig
      → Operation
      → (wallet : Str) → (payload : Json) → Option Number
      → W
      → W × Exit (Str × ℕ) (Unit {0})
  unfolding is_tfa_required approval_exit request_tfa_approval
  require_tfa_approval config operation wallet payload chain_id w =
      if not (is_tfa_required config operation)
      then (w, goes tt)
      else approval_exit (request_tfa_approval operation wallet payload chain_id w)
